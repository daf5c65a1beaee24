-- ===== src/Objects/Tests.antt =====
-- An observer with default options, and the theorem at it.
use elephant_shrew.Prelude.{◌≡◌, refl, true, false, none, some}
use elephant_shrew.Objects.{
  legacy, tcx, default_options, Skeleton, Libbpf, flows_failed, not_built, thrown, checked,
  configure, load_opened, load_typed, load_observer,
}

abbrev skeleton : Skeleton
skeleton = record {
  rodata = record {
    sample_every = 0;
    snapshot_bytes = 0;
    classify = false;
    flow_enabled = false;
    select_l4_proto = 0;
  };
  events_entries = 4096;
  flows_entries = 1;
  load_ingress = true;
  load_egress = true;
  loaded = false;
}

-- the kernel has no room for the flow table
abbrev crowded : Libbpf
crowded = record {
  opened = some skeleton;
  errno = 0;
  resize_ring = λ n. none;
  resize_flows = λ n. some 12;
  select_ingress = λ b. none;
  select_egress = λ b. none;
  load = λ s. none;
  events_fd = 4;
  counters_fd = 5;
  flows_fd = 6;
}

load_observer-crowded :
    load_observer true crowded default_options legacy ≡ thrown (flows_failed 12) 1
unfolding load_observer load_typed load_opened checked configure
load_observer-crowded = refl

load_observer-unbuilt : load_observer false crowded default_options tcx ≡ thrown not_built 0
unfolding load_observer
load_observer-unbuilt = refl
