-- ===== src/Telemetry/Run.antt =====
-- The books balance over any life of the telemetry object, and a finished one stays shut.
use mathlib.Core.Path.{subst}
use mathlib.Core.List.{append-nil, append_assoc}
use elephant_shrew.Prelude.{
  Sublist, nil, ℕ, ◌+◌, ◌^◌, ◌<◌, ◌≡◌, refl, sym, ap, ◌∙◌, Bool, true, not, ◌||◌, List, [], ◌∷◌,
  ◌++◌, Option, none, some, arith, inl, inr, length, length-append, add64, ◌==◌, Bool-cases,
  Option-cases, some_inj,
}
use elephant_shrew.Queue.{Queue, make_queue}
use elephant_shrew.Queue.Refine.{Holds, shrunk, try_pop-Holds, try_pop_of_empty, make_queue-Holds}
use elephant_shrew.Telemetry.{
  TelemetryRecord, Source, Code, error, ecanceled, Impl, Delivery, is_over, on_event, take_record,
  make_telemetry, Registrar, register_error, add_source, start,
}
use elephant_shrew.Telemetry.Account.{candidates, to_list, Balance, enqueue-Balance, lost-Balance}

module _ {capacity : ℕ} {ds : List Delivery} {out : List TelemetryRecord} where
  on_event-Balance :
      {xs : List TelemetryRecord} {t : Impl} (d : Delivery)
      → Balance capacity ds out xs t
      → length ds + 1 < 2 ^ 64
      → (code : Code) × (t' : Impl) × (xs' : List TelemetryRecord) × (on_event d t
          ≡ some (code, t'))
        × Balance capacity (ds ++ d ∷ []) out xs' t'
  unfolding on_event
  on_event-Balance {xs} {t} d b h =
      let late : Impl = record t { shutdown_discarded = add64 t.shutdown_discarded 1 } in
      elim (Bool-cases (is_over t d.now)) [
        | inl p ↦ (
          error ecanceled,
          late,
          xs,
          rw (p, on_event),
          lost-Balance {t' = late} d b b.queued (omega (arith, b.total)),
        )
        | inr p ↦
            let (code, t', xs', e, k) = enqueue-Balance d _ refl b h in
            (code, t', xs', rw (p, on_event) e, k)
      ]

  take_record-Balance :
      (xs : List TelemetryRecord) {t : Impl}
      → Balance capacity ds out xs t
      → (o : Option TelemetryRecord) × (t' : Impl) × (xs' : List TelemetryRecord) × (take_record t
          ≡ some (o, t'))
        × Balance capacity ds (out ++ to_list o) xs' t'
  unfolding take_record
  take_record-Balance [] {t} b = (
    none,
    t,
    [],
    rw (take_record, try_pop_of_empty t.queue b.queued),
    subst (λ (l : List TelemetryRecord). Balance capacity ds l [] t) (sym (append-nil out)) b,
  )
  take_record-Balance (x ∷ xs) {t} b =
      let (e, k) = try_pop-Holds t.queue x xs b.queued in
      let rest : Impl = record t { queue = shrunk t.queue } in
      (
        some x,
        rest,
        xs,
        rw (take_record, e),
        record {
          queued = k;
          ordered =
              subst (λ (l : List TelemetryRecord). Sublist l (candidates ds))
                (sym (append_assoc out (x ∷ []) xs)) b.ordered;
          total = omega (arith, b.total, length-append out (x ∷ []));
        },
      )

-- A life of the object: what was delivered and what was handed out, in order, and its state. `stored`
-- are the stores to the fields that steer the loops, by whichever thread.
pub data Ran (capacity : ℕ) : List Delivery → List TelemetryRecord → Impl → Type 0 where
  made :
      (blank : TelemetryRecord) {t : Impl}
      → make_telemetry blank capacity ≡ some t
      → Ran capacity [] [] t
  delivered :
      {ds : List Delivery} {out : List TelemetryRecord} {t : Impl}
      → Ran capacity ds out t
      → (d : Delivery) {code : Code} {t' : Impl} → on_event d t ≡ some (code, t')
      → Ran capacity (ds ++ d ∷ []) out t'
  taken :
      {ds : List Delivery} {out : List TelemetryRecord} {t : Impl}
      → Ran capacity ds out t
      → (o : Option TelemetryRecord) {t' : Impl} → take_record t ≡ some (o, t')
      → Ran capacity ds (out ++ to_list o) t'
  added :
      {ds : List Delivery} {out : List TelemetryRecord} {t : Impl}
      → Ran capacity ds out t
      → (r : Registrar) (valid_fd : Bool) (source : Source)
      → Ran capacity ds out (add_source r valid_fd source t).1
  begun :
      {ds : List Delivery} {out : List TelemetryRecord} {t : Impl}
      → Ran capacity ds out t
      → (thread_error : ℕ) → Ran capacity ds out (start thread_error t).1
  stored :
      {ds : List Delivery} {out : List TelemetryRecord} {t : Impl}
      → Ran capacity ds out t
      → (polling abort finished : Bool) (deadline_ns poll_error : ℕ)
      → Ran capacity ds out (record t {
        polling = polling;
        abort = abort;
        finished = finished;
        deadline_ns = deadline_ns;
        poll_error = poll_error;
      })

-- the books depend on the queue and the three counters only
steered :
    {capacity : ℕ} {ds : List Delivery} {out xs : List TelemetryRecord} {t t' : Impl}
    → Balance capacity ds out xs t
    → t'.queue ≡ t.queue
    → (t'.decode_errors ≡ t.decode_errors)
      × (t'.queue_dropped ≡ t.queue_dropped)
      × (t'.shutdown_discarded ≡ t.shutdown_discarded)
    → Balance capacity ds out xs t'
steered {capacity} {xs = xs} b same (e1, e2, e3) = record {
  queued = subst (λ (q : Queue TelemetryRecord). Holds q capacity xs) (sym same) b.queued;
  ordered = b.ordered;
  total = omega (arith, b.total);
}

make_telemetry-Balance :
    {capacity : ℕ} (blank : TelemetryRecord) {t : Impl}
    → make_telemetry blank capacity ≡ some t
    → Balance capacity [] [] [] t
unfolding make_telemetry
make_telemetry-Balance {capacity} blank {t} e = elim (Option-cases (make_queue blank capacity)) [
  | inl p ↦ absurd (none-some (rw (p, make_telemetry) at e))
  | inr (q, p) ↦
      let k = make_queue-Holds blank capacity p in
      subst (λ (u : Impl). Balance capacity [] [] [] u) (some_inj (rw (p, make_telemetry) at e))
        (record { queued = k; ordered = nil; total = refl })
]
  where
    none-some : {u : Impl} → none ≡ some u → ⊥
    none-some h = cc

added-Balance :
    {capacity : ℕ} {ds : List Delivery} {out xs : List TelemetryRecord} {t : Impl} (r : Registrar)
    (valid_fd : Bool) (source : Source)
    → Balance capacity ds out xs t
    → Balance capacity ds out xs (add_source r valid_fd source t).1
unfolding add_source
added-Balance {t = t} r valid_fd source b =
    elim (Bool-cases (t.started || t.finished || not valid_fd || source.ifindex == 0)) [
      | inl p ↦ rw (p, add_source) b
      | inr p ↦ elim (Bool-cases (register_error r t == 0)) [
        | inl q ↦
            rw (p, q, add_source)
              (steered {t' = record t { sources = t.sources ++ source ∷ []; ring = true }} b refl
                (refl, refl, refl))
        | inr q ↦ rw (p, q, add_source) b
      ]
    ]

begun-Balance :
    {capacity : ℕ} {ds : List Delivery} {out xs : List TelemetryRecord} {t : Impl}
    (thread_error : ℕ)
    → Balance capacity ds out xs t
    → Balance capacity ds out xs (start thread_error t).1
unfolding start
begun-Balance {t = t} thread_error b = elim (Bool-cases (not t.ring || t.started || t.finished)) [
  | inl p ↦ rw (p, start) b
  | inr p ↦ elim (Bool-cases (thread_error == 0)) [
    | inl q ↦
        rw (p, q, start)
          (steered {t' = record t { polling = true; started = true }} b refl (refl, refl, refl))
    | inr q ↦ rw (p, q, start) b
  ]
]

-- Over any life of the object with fewer than 2 ^ 64 deliveries, each delivery is accounted for: it
-- was handed out, is still queued, or is in one of the three loss counters. What was handed out,
-- followed by what is queued, are records of deliveries that passed the check and named their
-- source's interface, in the order of delivery.
pub Ran-Balance :
    {capacity : ℕ} {ds : List Delivery} {out : List TelemetryRecord} {t : Impl}
    → Ran capacity ds out t
    → length ds < 2 ^ 64
    → (xs : List TelemetryRecord) × Balance capacity ds out xs t
Ran-Balance (made blank e) h = ([], make_telemetry-Balance blank e)
Ran-Balance {capacity} (delivered {ds} {out} r d e) h =
    let l : length ds + 1 < 2 ^ 64 = omega (arith, length-append ds (d ∷ [])) in
    let (xs, b) = Ran-Balance r (omega arith) in
    let (code, t', xs', e', k) = on_event-Balance d b l in
    (
      xs',
      subst (λ (u : Impl). Balance capacity (ds ++ d ∷ []) out xs' u)
          (ap (λ (p : Code × Impl). p.1) (some_inj (sym e' ∙ e))) k,
    )
Ran-Balance {capacity} (taken {ds} {out} r o e) h =
    let (xs, b) = Ran-Balance r h in
    let (o', t', xs', e', k) = take_record-Balance xs b in
    (
      xs',
      subst
          (λ (p : Option TelemetryRecord × Impl). Balance capacity ds (out ++ to_list p.0) xs' p.1)
          (some_inj (sym e' ∙ e)) k,
    )
Ran-Balance (added r g v s) h = let (xs, b) = Ran-Balance r h in (xs, added-Balance g v s b)
Ran-Balance (begun r n) h = let (xs, b) = Ran-Balance r h in (xs, begun-Balance n b)
Ran-Balance (stored r p a f d e) h =
    let (xs, b) = Ran-Balance r h in (xs, steered b refl (refl, refl, refl))
