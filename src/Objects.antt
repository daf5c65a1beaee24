-- ===== src/Objects.antt =====
-- src/EbpfObject.cpp, inc/EbpfObject.hpp: the observer's BPF object opened, configured and loaded. libbpf
-- and the generated skeletons are parameters: what their calls return.
pub mod Loads
mod Tests
use elephant_shrew.Prelude.{
  ℕ, ◌*◌, Bool, true, false, not, ◌&&◌, Option, none, some, ◌==◌, if◌then◌else◌,
}
use elephant_shrew.Observer.{Settings}

pub data TcApi : Type 0 where
  legacy tcx : TcApi

pub record ObjectOptions : Type 0 where
  pub sample_every : ℕ
  pub snapshot_bytes : ℕ
  pub ring_buffer_bytes : ℕ
  pub max_flows : ℕ
  pub select_l4_proto : ℕ
  pub classify : Bool
  pub flow_enabled : Bool
  pub ingress : Bool
  pub egress : Bool

abbrev pub default_options : ObjectOptions
default_options = record {
  sample_every = 128;
  snapshot_bytes = 0;
  ring_buffer_bytes = 8 * 1024 * 1024;
  max_flows = 4096;
  select_l4_proto = 0;
  classify = true;
  flow_enabled = false;
  ingress = true;
  egress = true;
}

-- the parts of a skeleton that the loader sets; `loaded` are the programs that the kernel has
pub record Skeleton : Type 0 where
  pub rodata : Settings
  pub events_entries : ℕ
  pub flows_entries : ℕ
  pub load_ingress : Bool
  pub load_egress : Bool
  pub loaded : Bool

-- A call gives back `none` for 0 and otherwise an error number. `opened` is the skeleton as the file of
-- the program has it, or none and the `errno` left behind.
pub record Libbpf : Type 0 where
  pub opened : Option Skeleton
  pub errno : ℕ
  pub resize_ring : ℕ → Option ℕ
  pub resize_flows : ℕ → Option ℕ
  pub select_ingress : Bool → Option ℕ
  pub select_egress : Bool → Option ℕ
  pub load : Skeleton → Option ℕ
  pub events_fd : ℕ
  pub counters_fd : ℕ
  pub flows_fd : ℕ

-- the exceptions: the first is of an argument, the last of the build, the others carry an error number
pub data LoadError : Type 0 where
  no_direction : LoadError
  open_failed ring_failed flows_failed ingress_failed egress_failed load_failed : ℕ → LoadError
  not_built : LoadError

-- `LoadedObserver`; a program that is not asked for is a null pointer
pub record LoadedObserver : Type 0 where
  pub owner : Skeleton
  pub ingress : Bool
  pub egress : Bool
  pub events_fd : ℕ
  pub counters_fd : ℕ
  pub flows_fd : ℕ

-- An exception destroys the skeleton that was open: `destroyed` counts those.
pub data Loading : Type 0 where
  loaded_observer : LoadedObserver → Loading
  thrown : LoadError → (destroyed : ℕ) → Loading

abbrev enomem : ℕ
enomem = 12

-- `Check`, after a skeleton is open
unfoldable pub checked : (ℕ → LoadError) → Option ℕ → Loading → Loading
checked error none next = next
checked error (some e) next = thrown (error e) 1

-- the assignments to `rodata`
unfoldable pub configure : ObjectOptions → Skeleton → Skeleton
configure o s = record s {
  rodata = record {
    sample_every = o.sample_every;
    snapshot_bytes = o.snapshot_bytes;
    classify = o.classify;
    flow_enabled = o.flow_enabled;
    select_l4_proto = o.select_l4_proto;
  };
}

abbrev pub flow_entries : ObjectOptions → ℕ
flow_entries o = if o.flow_enabled then o.max_flows else 1

abbrev pub requested : ObjectOptions → Skeleton → Skeleton
requested o s = record s {
  events_entries = o.ring_buffer_bytes;
  flows_entries = flow_entries o;
  load_ingress = o.ingress;
  load_egress = o.egress;
}

-- `LoadTyped` from the open skeleton on
unfoldable pub load_opened : Libbpf → ObjectOptions → Skeleton → Loading
load_opened b o s =
    let s' = requested o (configure o s) in
    checked ring_failed (b.resize_ring o.ring_buffer_bytes) (
      checked flows_failed (b.resize_flows (flow_entries o)) (
        checked ingress_failed (b.select_ingress o.ingress) (
          checked egress_failed (b.select_egress o.egress) (
            checked load_failed (b.load s') (
              loaded_observer (record {
                owner = record s' { loaded = true };
                ingress = o.ingress;
                egress = o.egress;
                events_fd = b.events_fd;
                counters_fd = b.counters_fd;
                flows_fd = b.flows_fd;
              }))))))

-- `LoadTyped`
unfoldable pub load_typed : Libbpf → ObjectOptions → Loading
load_typed b o = elim b.opened [
  | none ↦ thrown (open_failed (if not (b.errno == 0) then b.errno else enomem)) 0
  | some s ↦ load_opened b o s
]

-- `LoadObserver`; `has_tcx` is ES_HAS_TCX
unfoldable pub load_observer : Bool → Libbpf → ObjectOptions → TcApi → Loading
load_observer has_tcx b o api =
    if not o.ingress && not o.egress then thrown no_direction 0 else elim api [
      | legacy ↦ load_typed b o
      | tcx ↦ if has_tcx then load_typed b o else thrown not_built 0
    ]
