-- ===== src/Relay/Conserved.antt =====
-- The books from the packets of an interface to the sink.
use mathlib.Core.List.{map-append}
use mathlib.Core.Path.{subst}
use elephant_shrew.Prelude.{
  ℕ, ◌+◌, ◌-◌, ◌^◌, ◌≤◌, ◌<◌, ◌≡◌, refl, sym, List, All, All-append, ◌++◌, arith, length,
  length-append, Option, none, some, take, map, Sublist,
}
use elephant_shrew.Abi.{Event, Direction, ingress, egress, direction_code}
use elephant_shrew.Queue.Refine.{Holds}
use elephant_shrew.Observer.{FlowTable, Settings}
use elephant_shrew.Observer.Balance.{IsBalanced}
use elephant_shrew.Observer.Sampling.{to_list}
use elephant_shrew.Observer.Submits.{es_observe-site}
use elephant_shrew.Observer.Cpus.{
  Site, site_of, IsSite, visits, Maps, total, Observed, start, later, Observed-IsBalanced,
  Observed-total,
}
use elephant_shrew.Telemetry.{TelemetryRecord, Source, Impl, Delivery}
use elephant_shrew.Telemetry.Run.{Ran, Ran-Balance}
use elephant_shrew.Telemetry.Loss.{loss}
use elephant_shrew.Relay.{telemetry_of, Watched, attached, observed, Relayed, waiting, relayed}
use elephant_shrew.Relay.Clean.{
  Watched-Sound, Relayed-IsCandidate, Relayed-candidates, Ran-decode_errors,
}

to_list-le : (o : Option Event) → length (to_list o) ≤ 1
to_list-le none = omega arith
to_list-le (some e) = omega arith

Watched-Observed :
    {F : Type 0} (table : FlowTable F) {c : Settings} {n ifindex : ℕ} {ps : List Site}
    {es : List Event} {m : Maps F}
    → Watched table c n ifindex ps es m
    → Observed table c ps es m
Watched-Observed table (attached flows) = start flows
Watched-Observed table (observed w d skb env r s v here below i e u) =
    later (Watched-Observed table w) d skb env r s e u

direction_code-lt : (d : Direction) → direction_code d < 2
direction_code-lt ingress = omega arith
direction_code-lt egress = omega arith

-- where the packets came, and where the records say that they come from
Watched-sites :
    {F : Type 0} (table : FlowTable F) {c : Settings} {n ifindex : ℕ} {ps : List Site}
    {es : List Event} {m : Maps F}
    → Watched table c n ifindex ps es m
    → All (IsSite n) ps × All (IsSite n) (map site_of es)
Watched-sites table (attached flows) = (tt, tt)
Watched-sites table {c} {n} (observed {ps} {es} {m} w d skb env r s v here below i e u) =
    let (before, origins) = Watched-sites table w in
    let site : IsSite n (env.cpu, direction_code d) = (below, direction_code-lt d) in
    (
      (site, before),
      subst (All (IsSite n)) (sym (map-append site_of es (to_list r.event))) (
          All-append (IsSite n) (map site_of es) (map site_of (to_list r.event)) origins (
            sites_of r.event λ x p.
              subst (IsSite n)
                (sym (
                  es_observe-site table c d skb env (m.counters env.cpu (direction_code d))
                    (m.flows env.cpu) e p))
                site)),
    )
  where
    sites_of :
        (o : Option Event)
        → ((x : Event) → o ≡ some x → IsSite n (site_of x))
        → All (IsSite n) (map site_of (to_list o))
    sites_of none h = tt
    sites_of (some x) h = (h x refl, tt)

-- each packet gives one record at most
Watched-le :
    {F : Type 0} (table : FlowTable F) {c : Settings} {n ifindex : ℕ} {ps : List Site}
    {es : List Event} {m : Maps F}
    → Watched table c n ifindex ps es m
    → length es ≤ length ps
Watched-le table (attached flows) = omega arith
Watched-le table (observed {es = es} w d skb env r s v here below i e u) =
    omega (arith, Watched-le table w, length-append es (to_list r.event), to_list-le r.event)

Relayed-le :
    {source : Source} {es : List Event} {ds : List Delivery}
    → Relayed source es ds
    → length ds ≤ length es
Relayed-le (waiting es) = omega arith
Relayed-le (relayed now e r) = omega (arith, Relayed-le r)

-- after the packets that came to `ps`, with the records `es` submitted, the deliveries `ds` made, the records `out`
-- handed out and `xs` queued
pub record Conserved {F : Type 0} (c : Settings) (source : Source) (n : ℕ) (ps : List Site)
    (es : List Event) (m : Maps F) (capacity : ℕ) (ds : List Delivery)
    (out xs : List TelemetryRecord) (t : Impl) : Type 0 where
  pub balanced :
      (cpu key : ℕ)
      → IsBalanced c.sample_every (m.counters cpu key)
        × ((m.counters cpu key).packets ≡ visits cpu key ps)
  pub packets : total n (λ s. s.packets) m ≡ length ps
  pub no_errors : (loss t).decode_errors ≡ 0
  pub in_ring : ℕ
  pub handed : in_ring + length ds ≡ length es
  pub events :
      total n (λ s. s.events) m
      ≡ in_ring + (loss t).queue_dropped + (loss t).shutdown_discarded + length out + length xs
  pub queued : Holds t.queue capacity xs
  pub in_order : Sublist (out ++ xs) (map (telemetry_of source) (take (length ds) es))

-- After fewer than 2 ^ 64 packets of one interface, in both directions and on processors below `n`, one after the other,
-- and any life of a telemetry object that is given the records out of the ring of that interface alone, in order, as
-- far as it has got: no record counts as a decoding error; each record that the programs submitted, which the event
-- counters of all processors and directions add up to, is still in the ring, was handed out, is queued, or is
-- counted as dropped or discarded; what was handed out, followed by what is queued, are records as they were
-- submitted, in order, some left out; and on each processor and in each direction the events and the records
-- lost for want of room in the ring make up one in `sample_every` of the packets selected there.
pub Watched-Conserved :
    {F : Type 0} (table : FlowTable F) {c : Settings} (source : Source) {n capacity : ℕ}
    {ps : List Site} {es : List Event} {m : Maps F} {ds : List Delivery}
    {out : List TelemetryRecord} {t : Impl}
    → Watched table c n source.ifindex ps es m
    → length ps < 2 ^ 64
    → Relayed source es ds
    → Ran capacity ds out t
    → (xs : List TelemetryRecord) × Conserved c source n ps es m capacity ds out xs t
unfolding loss
Watched-Conserved table source {n} {es = es} {ds = ds} {out = out} w h r life =
    let o = Watched-Observed table w in
    let (sites, origins) = Watched-sites table w in
    let (packets, events) = Observed-total table n o h sites origins in
    let few : length ds < 2 ^ 64 = omega (arith, Relayed-le r, Watched-le table w) in
    let (xs, books) = Ran-Balance life few in
    let sound = Watched-Sound table w in
    let clean = Ran-decode_errors life (Relayed-IsCandidate source r sound) in
    (
      xs,
      record {
        balanced = λ cpu key. let (b, p, _) = Observed-IsBalanced table cpu key o h in (b, p);
        packets = packets;
        no_errors = clean;
        in_ring = length es - length ds;
        handed = omega (arith, Relayed-le r);
        events = omega (arith, Relayed-le r, books.total, clean, events);
        queued = books.queued;
        in_order = subst (Sublist (out ++ xs)) (Relayed-candidates source r sound) books.ordered;
      },
    )
