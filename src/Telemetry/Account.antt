-- ===== src/Telemetry/Account.antt =====
-- What became of each delivery: handed out, still queued, or counted as lost.
use mathlib.Core.Path.{subst}
use mathlib.Core.List.{append-nil, append_assoc}
use elephant_shrew.Prelude.{
  Sublist, nil, keep, Sublist-append, Sublist-skipped, ℕ, ◌+◌, ◌^◌, ◌<◌, ◌≡◌, refl, sym, ap, ◌∙◌,
  List, [], ◌∷◌, ◌++◌, Option, none, some, arith, inl, inr, length, length-append, add64, ltb, ◌==◌,
  if◌then◌else◌, Bool-cases,
}
use elephant_shrew.Abi.{Event}
use elephant_shrew.Decoder.{decode_event}
use elephant_shrew.Queue.Refine.{Holds, try_push-Holds}
use elephant_shrew.Telemetry.{TelemetryRecord, Source, Code, count, Impl, Delivery, enqueue}

-- the record that a delivery stands for, if it passes the check and names the source's interface
abbrev pub from_event : Source → Option Event → List TelemetryRecord
from_event source none = []
from_event source (some e) =
    if e.ifindex == source.ifindex
    then (record { event = e; netns_inode = source.netns_inode; session_id = source.session_id })
      ∷ []
    else []

abbrev pub candidates : List Delivery → List TelemetryRecord
candidates [] = []
candidates (d ∷ ds) = from_event d.source (decode_event d.bytes d.size) ++ candidates ds

abbrev pub to_list : Option TelemetryRecord → List TelemetryRecord
to_list none = []
to_list (some r) = r ∷ []

-- the books, after the deliveries `ds` and the records `out` handed out, with `xs` in the queue
pub record Balance (capacity : ℕ) (ds : List Delivery) (out xs : List TelemetryRecord) (t : Impl)
    : Type 0 where
  pub queued : Holds t.queue capacity xs
  pub ordered : Sublist (out ++ xs) (candidates ds)
  pub total :
      t.decode_errors + t.queue_dropped + t.shutdown_discarded + length out + length xs ≡ length ds

candidates-append :
    (ds : List Delivery) (d : Delivery)
    → candidates (ds ++ d ∷ []) ≡ candidates ds ++ from_event d.source (decode_event d.bytes d.size)
candidates-append [] d = append-nil _
candidates-append (c ∷ ds) d =
    ap (λ k. from_event c.source (decode_event c.bytes c.size) ++ k) (candidates-append ds d)
    ∙ sym (append_assoc (from_event c.source (decode_event c.bytes c.size)) (candidates ds) _)

module _ {capacity : ℕ} {ds : List Delivery} {out xs : List TelemetryRecord} where
  -- a delivery that leaves the queue alone
  pub lost-Balance :
      {t t' : Impl} (d : Delivery)
      → Balance capacity ds out xs t
      → Holds t'.queue capacity xs
      → t'.decode_errors + t'.queue_dropped + t'.shutdown_discarded
        ≡ t.decode_errors + t.queue_dropped + t.shutdown_discarded + 1
      → Balance capacity (ds ++ d ∷ []) out xs t'
  lost-Balance {t} {t'} d b k h = record {
    queued = k;
    ordered =
        subst (λ (l : List TelemetryRecord). Sublist l (candidates (ds ++ d ∷ [])))
          (append-nil (out ++ xs))
          (subst (λ (l : List TelemetryRecord). Sublist ((out ++ xs) ++ []) l)
            (sym (candidates-append ds d)) (Sublist-append b.ordered (Sublist-skipped _)));
    total = omega (arith, b.total, h, length-append ds (d ∷ []));
  }

  -- a delivery that is put into the queue
  kept-Balance :
      {t t' : Impl} (d : Delivery) (r : TelemetryRecord)
      → Balance capacity ds out xs t
      → Holds t'.queue capacity (xs ++ r ∷ [])
      → from_event d.source (decode_event d.bytes d.size) ≡ r ∷ []
      → t'.decode_errors + t'.queue_dropped + t'.shutdown_discarded
        ≡ t.decode_errors + t.queue_dropped + t.shutdown_discarded
      → Balance capacity (ds ++ d ∷ []) out (xs ++ r ∷ []) t'
  kept-Balance {t} {t'} d r b k e h = record {
    queued = k;
    ordered =
        subst (λ (l : List TelemetryRecord). Sublist l (candidates (ds ++ d ∷ [])))
          (append_assoc out xs (r ∷ []))
          (subst (λ (l : List TelemetryRecord). Sublist ((out ++ xs) ++ r ∷ []) l)
            (sym (candidates-append ds d ∙ ap (λ l. candidates ds ++ l) e))
            (Sublist-append b.ordered (keep nil)));
    total = omega (arith, b.total, h, length-append ds (d ∷ []), length-append xs (r ∷ []));
  }

  pub enqueue-Balance :
      {t : Impl} (d : Delivery) (o : Option Event)
      → decode_event d.bytes d.size ≡ o
      → Balance capacity ds out xs t
      → length ds + 1 < 2 ^ 64
      → (code : Code) × (t' : Impl) × (xs' : List TelemetryRecord) × (enqueue d.source o t
          ≡ some (code, t'))
        × Balance capacity (ds ++ d ∷ []) out xs' t'
  unfolding enqueue
  enqueue-Balance {t} d none e b h =
      (_, _, xs, refl, lost-Balance d b b.queued (omega (arith, b.total)))
  enqueue-Balance {t} d (some ev) e b h =
      let r : TelemetryRecord = record {
        event = ev;
        netns_inode = d.source.netns_inode;
        session_id = d.source.session_id;
      } in
      let (q', pushed, k) = try_push-Holds t.queue r xs b.queued in
      let refused : Impl = record t { decode_errors = add64 t.decode_errors 1 } in
      let dropped : Impl = record t { queue = q'; queue_dropped = add64 t.queue_dropped 1 } in
      let taken : Impl = record t { queue = q' } in
      elim (Bool-cases (ev.ifindex == d.source.ifindex)) [
        | inr p ↦ (
          count 0,
          refused,
          xs,
          rw (p, enqueue),
          lost-Balance {t' = refused} d b b.queued (omega (arith, b.total)),
        )
        | inl p ↦ elim (Bool-cases (ltb (length xs) capacity)) [
          | inl f ↦ (
            count 0,
            taken,
            xs ++ r ∷ [],
            rw (p, enqueue, pushed, f),
            kept-Balance {t' = taken} d r b (rw f at k) (rw (e, p)) refl,
          )
          | inr f ↦ (
            count 0,
            dropped,
            xs,
            rw (p, enqueue, pushed, f),
            lost-Balance {t' = dropped} d b (rw f at k) (omega (arith, b.total)),
          )
        ]
      ]
