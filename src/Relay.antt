-- ===== src/Relay.antt =====
-- The observer and the telemetry object with the kernel's ring between them: bpf/elephantshrew_tc.bpf.c and
-- src/EbpfTelemetry.cpp. The ring hands over the submitted records one at a time, each once, in the order of
-- submission, as the BPF ring buffer does; how far it has got is open. Both directions of an interface share one
-- ring, which is the one source of the telemetry object here.
pub mod Clean
pub mod Conserved
mod Tests
use elephant_shrew.Prelude.{ℕ, ◌<◌, ◌≡◌, List, [], ◌∷◌, ◌++◌, some}
use elephant_shrew.Abi.{Event, Counters, Direction, direction_code}
use elephant_shrew.Abi.Layout.{store_event, sizeof_event}
use elephant_shrew.Observer.{Settings, Skb, Env, FlowTable, Seen, es_observe}
use elephant_shrew.Observer.Described.{IsSkb, IsEnv}
use elephant_shrew.Observer.Sampling.{zero_counters, to_list}
use elephant_shrew.Observer.Cpus.{Site, Maps, store_maps}
use elephant_shrew.Telemetry.{TelemetryRecord, Source, Delivery}

-- what the sink reads of a record of the interface `source`
abbrev pub telemetry_of : Source → Event → TelemetryRecord
telemetry_of source e = record {
  event = e;
  netns_inode = source.netns_inode;
  session_id = source.session_id;
}

module _ {F : Type 0} (table : FlowTable F) where
  -- The programs of both directions run on packets of the interface `ifindex`, on processors below `n`, one after the
  -- other, as the kernel supplies them: where each packet came, the last one first, what was submitted to the ring,
  -- in order, and the maps then.
  pub data Watched (c : Settings) (n ifindex : ℕ) : List Site → List Event → Maps F → Type 0 where
    attached :
        (flows : ℕ → F)
        → Watched c n ifindex [] [] (record { counters = λ i j. zero_counters; flows = flows })
    observed :
        {ps : List Site} {es : List Event} {m : Maps F}
        → Watched c n ifindex ps es m
        → (d : Direction) (skb : Skb) (env : Env) (r : Seen F) (s : Counters) → IsSkb skb
        → IsEnv env
        → env.cpu < n
        → skb.ifindex ≡ ifindex
        → es_observe table c d skb env
            (some (m.counters env.cpu (direction_code d)))
            (m.flows env.cpu)
          ≡ some r
        → r.counters ≡ some s
        → Watched c n ifindex
            ((env.cpu, direction_code d) ∷ ps)
            (es ++ to_list r.event)
            (store_maps env.cpu (direction_code d) s r.flows m)

-- the first records out of the ring, each with the time of the callback
pub data Relayed (source : Source) : List Event → List Delivery → Type 0 where
  waiting : (es : List Event) → Relayed source es []
  relayed :
      (now : ℕ) (e : Event) {es : List Event} {ds : List Delivery}
      → Relayed source es ds
      → Relayed source (e ∷ es) (
          (record { now = now; source = source; bytes = some (store_event e); size = sizeof_event })
          ∷ ds)
