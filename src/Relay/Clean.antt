-- ===== src/Relay/Clean.antt =====
-- No record of the observer counts as a decoding error.
use elephant_shrew.Prelude.{
  ℕ, ◌≡◌, ◌≢◌, refl, sym, ap, ◌∙◌, Bool, true, List, [], ◌∷◌, Option, none, some, arith, inl, inr,
  length, take, map, ◌==◌, Bool-cases, Option-cases, some_inj, All, All-append, All-split,
}
use elephant_shrew.Abi.{Event, direction_code}
use elephant_shrew.Abi.Layout.{store_event}
use elephant_shrew.Decoder.{decode_event}
use elephant_shrew.Queue.{make_queue, try_push, try_pop}
use elephant_shrew.Observer.{FlowTable, Settings}
use elephant_shrew.Observer.Sampling.{to_list}
use elephant_shrew.Observer.Emits.{es_observe-decode}
use elephant_shrew.Observer.Submits.{es_observe-ifindex}
use elephant_shrew.Observer.Cpus.{Site, Maps}
use elephant_shrew.Telemetry.{
  TelemetryRecord, Source, Code, Impl, Delivery, is_over, enqueue, on_event, take_record,
  make_telemetry, Registrar, add_source, start,
}
use elephant_shrew.Telemetry.Account.{from_event, candidates}
use elephant_shrew.Telemetry.Run.{Ran, made, delivered, taken, added, begun, stored}
use elephant_shrew.Relay.{telemetry_of, Watched, attached, observed, Relayed, waiting, relayed}

-- a record that comes through the ring as it was written, and names the interface
abbrev pub Sound : ℕ → Event → Type 0
Sound ifindex e = (decode_event (some (store_event e)) 216 ≡ some e) × (e.ifindex ≡ ifindex)

to_list-Sound :
    (ifindex : ℕ) (o : Option Event)
    → ((e : Event) → o ≡ some e → Sound ifindex e)
    → All (Sound ifindex) (to_list o)
to_list-Sound ifindex none h = tt
to_list-Sound ifindex (some e) h = (h e refl, tt)

pub Watched-Sound :
    {F : Type 0} (table : FlowTable F) {c : Settings} {n ifindex : ℕ} {ps : List Site}
    {es : List Event} {m : Maps F}
    → Watched table c n ifindex ps es m
    → All (Sound ifindex) es
Watched-Sound table (attached flows) = tt
Watched-Sound table {c} {n} {ifindex} (observed {ps} {es} {m} w d skb env r s v here below i e u) =
    let s' = m.counters env.cpu (direction_code d) in
    let flows = m.flows env.cpu in
    All-append (Sound ifindex) es (to_list r.event) (Watched-Sound table w) (
      to_list-Sound ifindex r.event λ x p. (
        es_observe-decode table c d skb env s' flows v here e p,
        es_observe-ifindex table c d skb env s' flows e p ∙ i,
      ))

-- a delivery that gives a record
abbrev pub IsCandidate : Delivery → Type 0
IsCandidate d = from_event d.source (decode_event d.bytes d.size) ≢ []

module _ (source : Source) where
  from_event-Sound :
      (e : Event)
      → Sound source.ifindex e
      → from_event source (decode_event (some (store_event e)) 216) ≡ telemetry_of source e ∷ []
  from_event-Sound e (p, i) =
      let same : (e.ifindex == source.ifindex) ≡ true = ground arith in rw (p, same)

  pub Relayed-IsCandidate :
      {es : List Event} {ds : List Delivery}
      → Relayed source es ds
      → All (Sound source.ifindex) es
      → All IsCandidate ds
  Relayed-IsCandidate (waiting es) h = tt
  Relayed-IsCandidate (relayed now e r) (h, k) =
      (λ p. filled (sym (from_event-Sound e h) ∙ p), Relayed-IsCandidate r k)
    where
      filled : {x : TelemetryRecord} {xs : List TelemetryRecord} → x ∷ xs ≡ [] → ⊥
      filled p = cc

  pub Relayed-candidates :
      {es : List Event} {ds : List Delivery}
      → Relayed source es ds
      → All (Sound source.ifindex) es
      → candidates ds ≡ map (telemetry_of source) (take (length ds) es)
  Relayed-candidates (waiting es) h = refl
  Relayed-candidates (relayed now e r) (h, k) = rw (from_event-Sound e h, Relayed-candidates r k)

none-some : {A : Type 0} {x : A} → none ≡ some x → ⊥
none-some h = cc

enqueue-IsCandidate :
    (source : Source) (o : Option Event) (t : Impl) {code : Code} {t' : Impl}
    → from_event source o ≢ []
    → enqueue source o t ≡ some (code, t')
    → t'.decode_errors ≡ t.decode_errors
unfolding enqueue
enqueue-IsCandidate source none t h e = absurd (h refl)
enqueue-IsCandidate source (some x) t {code} {t'} h e =
    elim (Bool-cases (x.ifindex == source.ifindex)) [
      | inr p ↦ absurd (h (rw p))
      | inl p ↦ elim (Option-cases (try_push (telemetry_of source x) t.queue)) [
        | inl q ↦ absurd (none-some (rw (p, q, enqueue) at e))
        | inr (r, q) ↦
            sym (ap (λ (y : Code × Impl). y.1.decode_errors) (some_inj (rw (p, q, enqueue) at e)))
      ]
    ]

on_event-IsCandidate :
    (d : Delivery) (t : Impl) {code : Code} {t' : Impl}
    → IsCandidate d
    → on_event d t ≡ some (code, t')
    → t'.decode_errors ≡ t.decode_errors
unfolding on_event
on_event-IsCandidate d t h e = elim (Bool-cases (is_over t d.now)) [
  | inl p ↦ sym (ap (λ (y : Code × Impl). y.1.decode_errors) (some_inj (rw (p, on_event) at e)))
  | inr p ↦ enqueue-IsCandidate d.source _ t h (rw (p, on_event) at e)
]

take_record-decode_errors :
    (t : Impl) {o : Option TelemetryRecord} {t' : Impl}
    → take_record t ≡ some (o, t')
    → t'.decode_errors ≡ t.decode_errors
unfolding take_record
take_record-decode_errors t e = elim (Option-cases (try_pop t.queue)) [
  | inl p ↦ absurd (none-some (rw (p, take_record) at e))
  | inr (r, p) ↦ sym (
      ap (λ (y : Option TelemetryRecord × Impl). y.1.decode_errors)
        (some_inj (rw (p, take_record) at e)))
]

add_source-decode_errors :
    (r : Registrar) (valid_fd : Bool) (source : Source) (t : Impl)
    → (add_source r valid_fd source t).1.decode_errors ≡ t.decode_errors
unfolding add_source
add_source-decode_errors r valid_fd source t = ground arith

start-decode_errors : (n : ℕ) (t : Impl) → (start n t).1.decode_errors ≡ t.decode_errors
unfolding start
start-decode_errors n t = ground arith

make_telemetry-decode_errors :
    (blank : TelemetryRecord) (capacity : ℕ) {t : Impl}
    → make_telemetry blank capacity ≡ some t
    → t.decode_errors ≡ 0
unfolding make_telemetry
make_telemetry-decode_errors blank capacity e = elim (Option-cases (make_queue blank capacity)) [
  | inl p ↦ absurd (none-some (rw (p, make_telemetry) at e))
  | inr (q, p) ↦ sym (ap (λ (t : Impl). t.decode_errors) (some_inj (rw (p, make_telemetry) at e)))
]

pub Ran-decode_errors :
    {capacity : ℕ} {ds : List Delivery} {out : List TelemetryRecord} {t : Impl}
    → Ran capacity ds out t
    → All IsCandidate ds
    → t.decode_errors ≡ 0
Ran-decode_errors {capacity} (made blank e) h = make_telemetry-decode_errors blank capacity e
Ran-decode_errors (delivered {ds} {out} {t} r d e) h =
    let (before, (now, _)) = All-split IsCandidate ds (d ∷ []) h in
    on_event-IsCandidate d t now e ∙ Ran-decode_errors r before
Ran-decode_errors (taken {t = t} r o e) h = take_record-decode_errors t e ∙ Ran-decode_errors r h
Ran-decode_errors (added {t = t} r g v s) h =
    add_source-decode_errors g v s t ∙ Ran-decode_errors r h
Ran-decode_errors (begun {t = t} r n) h = start-decode_errors n t ∙ Ran-decode_errors r h
Ran-decode_errors (stored r p a f d e) h = Ran-decode_errors r h
