-- ===== src/Objects/Loads.antt =====
-- What a loaded observer is, and what an exception leaves behind.
use elephant_shrew.Prelude.{ℕ, ◌≡◌, ◌≢◌, Bool, true, false, ◌||◌, Option, none, some}
use elephant_shrew.Objects.{
  TcApi, tcx, ObjectOptions, Skeleton, Libbpf, LoadError, no_direction, open_failed, ring_failed,
  flows_failed, ingress_failed, egress_failed, load_failed, not_built, LoadedObserver, Loading,
  loaded_observer, thrown, configure, flow_entries, requested,
}

-- An observer that runs as it was asked to: the programs read these settings, and the kernel loaded
-- just the programs of the directions chosen, of which there is one at least.
pub record IsLoaded (b : Libbpf) (o : ObjectOptions) (l : LoadedObserver) : Type 0 where
  pub skeleton : Skeleton
  pub was_opened : b.opened ≡ some skeleton
  pub accepted : b.load (requested o (configure o skeleton)) ≡ none
  pub owner : l.owner ≡ record (requested o (configure o skeleton)) { loaded = true }
  pub settings : l.owner.rodata ≡ record {
    sample_every = o.sample_every;
    snapshot_bytes = o.snapshot_bytes;
    classify = o.classify;
    flow_enabled = o.flow_enabled;
    select_l4_proto = o.select_l4_proto;
  }
  pub flows : o.flow_enabled ≡ false → l.owner.flows_entries ≡ 1
  pub programs : (l.ingress ≡ l.owner.load_ingress) × (l.egress ≡ l.owner.load_egress)
  pub some_program : (l.ingress || l.egress) ≡ true

-- a call of libbpf on an open skeleton, reached when those before it succeeded, and its answer
pub data IsCall (b : Libbpf) (o : ObjectOptions) (s : Skeleton)
    : (ℕ → LoadError) → Option ℕ → Type 0 where
  ring_call : IsCall b o s ring_failed (b.resize_ring o.ring_buffer_bytes)
  flows_call :
      b.resize_ring o.ring_buffer_bytes ≡ none
      → IsCall b o s flows_failed (b.resize_flows (flow_entries o))
  ingress_call :
      b.resize_flows (flow_entries o) ≡ none
      → IsCall b o s ingress_failed (b.select_ingress o.ingress)
  egress_call :
      b.select_ingress o.ingress ≡ none → IsCall b o s egress_failed (b.select_egress o.egress)
  load_call :
      b.select_egress o.egress ≡ none
      → IsCall b o s load_failed (b.load (requested o (configure o s)))

-- An exception with the call that gave it, and as many skeletons destroyed as were opened.
pub data IsRefused (has_tcx : Bool) (b : Libbpf) (o : ObjectOptions) (api : TcApi)
    : LoadError → ℕ → Type 0 where
  undirected : o.ingress ≡ false → o.egress ≡ false → IsRefused has_tcx b o api no_direction 0
  unbuilt : has_tcx ≡ false → api ≡ tcx → IsRefused has_tcx b o api not_built 0
  unopened : (e : ℕ) → e ≢ 0 → b.opened ≡ none → IsRefused has_tcx b o api (open_failed e) 0
  closed :
      (s : Skeleton) (error : ℕ → LoadError) (answer : Option ℕ) (e : ℕ)
      → b.opened ≡ some s
      → IsCall b o s error answer
      → answer ≡ some e
      → IsRefused has_tcx b o api (error e) 1

module _ (has_tcx : Bool) (b : Libbpf) (o : ObjectOptions) (api : TcApi) where
  -- the result of loading, and why
  pub data IsOutcome : Loading → Type 0 where
    loads : (l : LoadedObserver) → IsLoaded b o l → IsOutcome (loaded_observer l)
    throws : (e : LoadError) (n : ℕ) → IsRefused has_tcx b o api e n → IsOutcome (thrown e n)
