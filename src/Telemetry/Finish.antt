-- ===== src/Telemetry/Finish.antt =====
-- The loops end, and a finished object stays shut.
use mathlib.Core.Path.{subst}
use mathlib.Core.Option
use elephant_shrew.Prelude.{
  ℕ, zero, suc, ◌+◌, ◌*◌, ◌≤◌, ◌<◌, ◌≡◌, refl, sym, ap, ◌∙◌, Bool, true, false, not, ◌&&◌, ◌||◌,
  List, [], ◌∷◌, Option, none, some, arith, inl, inr, length, add64, ltb, leb, ◌==◌, if◌then◌else◌,
  Bool-cases, some_inj,
}
use elephant_shrew.Abi.{Event}
use elephant_shrew.Decoder.{decode_event}
use elephant_shrew.Queue.Refine.{Holds, try_push-Holds}
use elephant_shrew.Telemetry.{
  TelemetryRecord, Source, Code, count, error, eintr, ecanceled, Impl, Delivery, is_over, enqueue,
  on_event, deliver, Registrar, invalid_argument, logic_error, add_source, start, Turn,
  after_consume, drain, PollTurn, after_poll, poll, clamp_ms, close, finish_after_detach,
}

-- the queue is a bounded first-in first-out list
abbrev pub IsUsable : ℕ → Impl → Type 0
IsUsable capacity t = (xs : List TelemetryRecord) × Holds t.queue capacity xs

-- a callback leaves the fields that steer the loops
abbrev Steers : Impl → Impl → Type 0
Steers t t' = (t'.deadline_ns ≡ t.deadline_ns) × (t'.abort ≡ t.abort)

after_consume_total :
    (c : Code) (again : Option Impl) (t : Impl)
    → (r : Impl) × (again ≡ some r)
    → (r : Impl) × (after_consume c again t ≡ some r)
unfolding after_consume
after_consume_total (count zero) again t r = (t, refl)
after_consume_total (count (suc n)) again t r = r
after_consume_total (error e) again t r = elim (Bool-cases (e == eintr)) [
  | inl p ↦ rw (p, after_consume) r
  | inr p ↦ elim (Bool-cases (e == ecanceled)) [
    | inl q ↦ (t, rw (p, q, after_consume))
    | inr q ↦ (record t { poll_error = e }, rw (p, q, after_consume))
  ]
]

after_poll_total :
    (c : Code) (again : Option Impl) (t : Impl)
    → (r : Impl) × (again ≡ some r)
    → (r : Impl) × (after_poll c again t ≡ some r)
unfolding after_poll
after_poll_total (count n) again t r = r
after_poll_total (error e) again t r = elim (Bool-cases (e == eintr)) [
  | inl p ↦ rw (p, after_poll) r
  | inr p ↦ elim (Bool-cases (e == ecanceled && t.abort)) [
    | inl q ↦ (t, rw (p, q, after_poll))
    | inr q ↦ (record t { poll_error = e }, rw (p, q, after_poll))
  ]
]

if_true : {A : Type 0} {x : A} (y : A) {b : Bool} → b ≡ true → (if b then x else y) ≡ x
if_true y p = rw p

if_false : {A : Type 0} (x : A) {y : A} {b : Bool} → b ≡ false → (if b then x else y) ≡ y
if_false x p = rw p

module _ {capacity : ℕ} where
  enqueue-IsUsable :
      (s : Source) (o : Option Event) (t : Impl)
      → IsUsable capacity t
      → (c : Code) × (t' : Impl) × (enqueue s o t ≡ some (c, t'))
        × IsUsable capacity t'
        × Steers t t'
  unfolding enqueue
  enqueue-IsUsable s none t u = (_, _, refl, u, (refl, refl))
  enqueue-IsUsable s (some e) t (xs, h) =
      let r : TelemetryRecord = record {
        event = e;
        netns_inode = s.netns_inode;
        session_id = s.session_id;
      } in
      let (q', pushed, k) = try_push-Holds t.queue r xs h in
      let refused : Impl = record t { decode_errors = add64 t.decode_errors 1 } in
      let ok = ltb (length xs) capacity in
      let after : Impl = record t {
        queue = q';
        queue_dropped = if ok then t.queue_dropped else add64 t.queue_dropped 1;
      } in
      elim (Bool-cases (e.ifindex == s.ifindex)) [
        | inl p ↦ (count 0, after, rw (p, enqueue, pushed), (_, k), (refl, refl))
        | inr p ↦ (count 0, refused, rw (p, enqueue), (xs, h), (refl, refl))
      ]

  on_event-IsUsable :
      (d : Delivery) (t : Impl)
      → IsUsable capacity t
      → (c : Code) × (t' : Impl) × (on_event d t ≡ some (c, t'))
        × IsUsable capacity t'
        × Steers t t'
  unfolding on_event
  on_event-IsUsable d t u =
      let late : Impl = record t { shutdown_discarded = add64 t.shutdown_discarded 1 } in
      elim (Bool-cases (is_over t d.now)) [
        | inl p ↦ (error ecanceled, late, rw (p, on_event), u, (refl, refl))
        | inr p ↦
            let (c, t', e, k, s) = enqueue-IsUsable d.source (decode_event d.bytes d.size) t u in
            (c, t', rw (p, on_event) e, k, s)
      ]

  deliver-IsUsable :
      (ds : List Delivery) (t : Impl)
      → IsUsable capacity t
      → (t' : Impl) × (deliver ds t ≡ some t') × IsUsable capacity t' × Steers t t'
  unfolding deliver
  deliver-IsUsable [] t u = (t, refl, u, (refl, refl))
  deliver-IsUsable (d ∷ ds) t u =
      let (c, t₁, e, v, s) = on_event-IsUsable d t u in
      let (t₂, e', w, s') = deliver-IsUsable ds t₁ v in
      (t₂, rw (deliver, e, e'), w, (s'.0 ∙ s.0, s'.1 ∙ s.1))

  drain_total :
      (k fuel : ℕ) (script : ℕ → Turn) (t : Impl)
      → IsUsable capacity t
      → t.deadline_ns ≤ (script k).now
      → k < fuel
      → (t' : Impl) × (drain fuel script t ≡ some t')
  unfolding drain
  drain_total k zero script t u h lt = absurd (omega arith)
  drain_total zero (suc fuel) script t u h lt =
      let p : leb t.deadline_ns (script zero).now ≡ true = ground arith in (t, rw (drain, p))
  drain_total (suc k) (suc fuel) script t u h lt =
      elim (Bool-cases (leb t.deadline_ns (script zero).now)) [
        | inl p ↦ (t, rw (p, drain))
        | inr p ↦
            let (t₁, e, v, s) = deliver-IsUsable (script zero).deliveries t u in
            let again =
              drain_total k fuel (λ n. script (suc n)) t₁ v (omega (arith, s.0)) (omega arith) in
            let (r, e') =
              after_consume_total (script zero).code (drain fuel (λ n. script (suc n)) t₁) t₁
                again in
            (r, rw (p, drain, e) e')
      ]

  -- A finish returns as soon as its loop reads the clock at or past the deadline: it does so in
  -- turn `k`, and fuel for `k + 1` turns is enough. Premise: the queue has not been corrupted.
  pub finish_after_detach_total :
      (k fuel now timeout : ℕ) (script : ℕ → Turn) (t : Impl)
      → IsUsable capacity t
      → add64 now (clamp_ms timeout * 1000000) ≤ (script k).now
      → k < fuel
      → (r : ℕ × Impl) × (finish_after_detach fuel now script timeout t ≡ some r)
  unfolding finish_after_detach
  finish_after_detach_total k fuel now timeout script t u h lt =
      let begun : Impl = record t {
        abort = false;
        polling = false;
        deadline_ns = add64 now (clamp_ms timeout * 1000000);
      } in
      let (r, e) = drain_total k fuel script begun u h lt in
      elim (Bool-cases t.finished) [
        | inl p ↦ ((t.poll_error, t), if_true _ p)
        | inr p ↦ elim (Bool-cases (ltb 0 (clamp_ms timeout) && t.ring)) [
          | inl q ↦ (close r, if_false _ p ∙ (if_true _ q ∙ ap (Option.map close) e))
          | inr q ↦
              (close (record t { abort = true; polling = false }), if_false _ p ∙ if_false _ q)
        ]
      ]

  -- The poller ends once another thread has stored true in `abort`: in turn `k` at the latest it
  -- does so, and fuel for `k + 2` turns is enough. Premise: the queue has not been corrupted.
  pub poll_total :
      (k fuel : ℕ) (script : ℕ → PollTurn) (t : Impl)
      → IsUsable capacity t
      → (script k).signalled ≡ true
      → k + 1 < fuel
      → (t' : Impl) × (poll fuel script t ≡ some t')
  unfolding poll
  poll_total k zero script t u h lt = absurd (omega arith)
  poll_total k (suc fuel) script t u h lt = elim (Bool-cases t.abort) [
    | inl p ↦ (t, rw (p, poll))
    | inr p ↦
        let s = (script zero).signalled in
        let (t₁, e, v, same) =
          deliver-IsUsable (script zero).deliveries (record t { abort = s }) u in
        let again =
          rest k fuel t₁ v same.1 h lt
            (λ j a l. poll_total j fuel (λ n. script (suc n)) t₁ v a l) in
        let (r, e') =
          after_poll_total (script zero).code (poll fuel (λ n. script (suc n)) t₁) t₁ again in
        (r, rw (p, poll, e) e')
  ]
    where
      stopped :
          (fuel : ℕ) (script : ℕ → PollTurn) (t : Impl)
          → t.abort ≡ true
          → 0 < fuel
          → (t' : Impl) × (poll fuel script t ≡ some t')
      stopped zero script t a lt = absurd (omega arith)
      stopped (suc fuel) script t a lt = (t, rw (a, poll))

      rest :
          (k fuel : ℕ) (t₁ : Impl)
          → IsUsable capacity t₁
          → t₁.abort ≡ (script zero).signalled
          → (script k).signalled ≡ true
          → k + 1 < suc fuel
          → ((j : ℕ)
              → (script (suc j)).signalled ≡ true
              → j + 1 < fuel
              → (t' : Impl) × (poll fuel (λ n. script (suc n)) t₁ ≡ some t'))
          → (t' : Impl) × (poll fuel (λ n. script (suc n)) t₁ ≡ some t')
      rest zero fuel t₁ v a h lt go = stopped fuel (λ n. script (suc n)) t₁ (a ∙ h) (omega arith)
      rest (suc k) fuel t₁ v a h lt go = go k h (omega arith)

-- what the calls after a finish do, given the result of the finish
abbrev pub Shut : ℕ × Impl → Type 0
Shut (e, t) =
    ((fuel now timeout : ℕ) (script : ℕ → Turn)
      → finish_after_detach fuel now script timeout t ≡ some (e, t))
    × ((r : Registrar) (valid_fd : Bool) (s : Source)
        → add_source r valid_fd s t ≡ (invalid_argument, t))
    × ((n : ℕ) → start n t ≡ (logic_error, t))
    × ((d : Delivery)
        → on_event d t
          ≡ some (error ecanceled, record t { shutdown_discarded = add64 t.shutdown_discarded 1 }))

close-Shut : (t : Impl) → Shut (close t)
unfolding finish_after_detach add_source start on_event
close-Shut t = (
  λ fuel now timeout script. refl,
  λ r valid_fd s.
      let p : (t.started || true || not valid_fd || s.ifindex == 0) ≡ true = ground arith in
      if_true _ p,
  λ n. let p : (not t.ring || t.started || true) ≡ true = ground arith in if_true _ p,
  λ d. refl,
)

closed-Shut : (o : Option Impl) {p : ℕ × Impl} → Option.map close o ≡ some p → Shut p
closed-Shut none h = absurd cc
closed-Shut (some t) h = subst Shut (some_inj h) (close-Shut t)

-- Once a call has finished the object: another finish changes nothing and returns the same error,
-- sources and starts are refused, and a delivery is counted as discarded and not looked at.
pub finish_after_detach-Shut :
    (fuel now timeout : ℕ) (script : ℕ → Turn) (t : Impl) {e : ℕ} {t' : Impl}
    → t.finished ≡ false
    → finish_after_detach fuel now script timeout t ≡ some (e, t')
    → Shut (e, t')
unfolding finish_after_detach
finish_after_detach-Shut fuel now timeout script t {e} {t'} unfinished h =
    elim (Bool-cases (ltb 0 (clamp_ms timeout) && t.ring)) [
      | inl q ↦ closed-Shut (drain fuel script _) (sym (if_false _ unfinished ∙ if_true _ q) ∙ h)
      | inr q ↦
          subst Shut (some_inj (sym (if_false _ unfinished ∙ if_false _ q) ∙ h))
            (close-Shut (record t { abort = true; polling = false }))
    ]
