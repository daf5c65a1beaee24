-- ===== src/ThreadPool/Exits.antt =====
-- The way of the workers out of a pool that is being destroyed.
use mathlib.Core.Path.{subst}
use elephant_shrew.Prelude.{
  ℕ, ◌+◌, ◌≤◌, ◌≡◌, ◌≢◌, ◌⊎◌, refl, sym, ap, ◌∙◌, Bool, true, false, not, List, [], ◌∷◌, ◌++◌,
  Option, none, some, ◌==◌, ==_iff, arith, if◌then◌else◌, Bool-cases, Option-cases, inl, inr,
}
use elephant_shrew.ThreadPool.{
  Worker, looping, locking, testing, blocking, waiting, checking, taking, running, exited,
  ThreadPool, Progress, blocked, undefined, next, set_worker, moved, run_worker, woken, notify_one,
  post, deactivate, notify_all, Action, work, posting, spurious, destroy, finish_notify, act,
}
use elephant_shrew.ThreadPool.Safe.{
  blocked-next, undefined-next, next_inj, List-cases, holds, IsSafe, Reached, acted, Reached-IsSafe,
  act_defined,
}

-- a worker that waits, or is about to, whatever the flag says
abbrev stays : Worker → Bool
stays blocking = true
stays waiting = true
stays w = false

-- the steps of `Run` up to its end, once the flag is clear
abbrev pub steps_left : Worker → ℕ
steps_left exited = 0
steps_left looping = 1
steps_left (running j) = 2
steps_left taking = 3
steps_left checking = 4
steps_left testing = 5
steps_left locking = 6
steps_left w = 7

pub record IsLeaving (p : ThreadPool) : Type 0 where
  pub inactive : p.is_active ≡ false
  pub none_stays : (i : ℕ) → stays (p.pool i) ≡ false

-- how worker `i` leaves a state behind
record Left (p : ThreadPool) (i : ℕ) (w : Worker) (q : ThreadPool) : Type 0 where
  now : Worker
  inactive : q.is_active ≡ false
  same : q.pool ≡ set_worker i now p.pool
  moves : stays now ≡ false
  nearer : steps_left now + 1 ≤ steps_left w

true-false : true ≡ false → ⊥
true-false h = cc

module _ {p : ThreadPool} (off : p.is_active ≡ false) (i : ℕ) where
  left :
      (w w' : Worker)
      → stays w' ≡ false
      → steps_left w' + 1 ≤ steps_left w
      → Left p i w (moved i w' p)
  left w w' s l = record { now = w'; inactive = off; same = refl; moves = s; nearer = l }

  run_worker-Left :
      (w : Worker) → stays w ≡ false → (q : ThreadPool) → run_worker i w p ≡ next q → Left p i w q
  unfolding run_worker
  run_worker-Left looping s q r = subst (Left p i looping) (next_inj r) (tested p.is_active off)
    where
      tested : (a : Bool) → a ≡ false → Left p i looping (moved i (if a then locking else exited) p)
      tested true e = absurd (true-false e)
      tested false e = left looping exited refl (omega arith)
  run_worker-Left locking s q r = elim (Option-cases p.guard) [
    | inr (k, g) ↦ absurd (blocked-next (rw (g, run_worker) at r))
    | inl g ↦
        subst (Left p i locking) (next_inj (rw (g, run_worker) at r)) (record {
          now = testing;
          inactive = off;
          same = refl;
          moves = refl;
          nearer = omega arith;
        })
  ]
  run_worker-Left testing s q r = elim (List-cases p.pending_jobs) [
    | inr (j, js, g) ↦
        subst (Left p i testing) (next_inj (rw (g, run_worker) at r))
          (left testing checking refl (omega arith))
    | inl g ↦ subst (Left p i testing) (next_inj (rw (g, run_worker) at r)) (tested p.is_active off)
  ]
    where
      tested :
          (a : Bool)
          → a ≡ false
          → Left p i testing (moved i (if not a then checking else blocking) p)
      tested true e = absurd (true-false e)
      tested false e = left testing checking refl (omega arith)
  run_worker-Left blocking s q r = absurd (true-false s)
  run_worker-Left waiting s q r = absurd (true-false s)
  run_worker-Left checking s q r = tested p.is_active off r
    where
      tested :
          (a : Bool)
          → a ≡ false
          → (if not a
              then next (record (moved i exited p) { guard = none })
              else next (moved i taking p))
            ≡ next q
          → Left p i checking q
      tested true e r = absurd (true-false e)
      tested false e r =
          subst (Left p i checking) (next_inj r) (record {
            now = exited;
            inactive = off;
            same = refl;
            moves = refl;
            nearer = omega arith;
          })
  run_worker-Left taking s q r = elim (List-cases p.pending_jobs) [
    | inl g ↦ absurd (undefined-next (rw (g, run_worker) at r))
    | inr (j, js, g) ↦ subst (Left p i taking) (next_inj (rw (g, run_worker) at r)) (record {
      now = running j;
      inactive = off;
      same = refl;
      moves = refl;
      nearer = omega arith;
    })
  ]
  run_worker-Left (running j) s q r =
      subst (Left p i (running j)) (next_inj r) (left (running j) looping refl (omega arith))
  run_worker-Left exited s q r = absurd (blocked-next r)

abbrev pub worked : ℕ → Action → ℕ
worked i (work k) = if k == i then 1 else 0
worked i a = 0

-- the steps of worker `i` in a series
abbrev pub steps_of : ℕ → List Action → ℕ
steps_of i [] = 0
steps_of i (a ∷ acts) = worked i a + steps_of i acts

-- a series of steps of any threads
pub data Went : ThreadPool → List Action → ThreadPool → Type 0 where
  stopped : (p : ThreadPool) → Went p [] p
  went :
      (p q t : ThreadPool) (a : Action) (acts : List Action)
      → act a p ≡ next q
      → Went q acts t
      → Went p (a ∷ acts) t

==_flip : (j i : ℕ) → (j == i) ≡ false → (i == j) ≡ false
==_flip j i e = ground arith

woken_same : (w : Worker) → stays w ≡ false → woken w ≡ w
woken_same waiting s = absurd (true-false s)
woken_same looping s = refl
woken_same locking s = refl
woken_same testing s = refl
woken_same blocking s = refl
woken_same checking s = refl
woken_same taking s = refl
woken_same (running j) s = refl
woken_same exited s = refl

-- what a step of any thread leaves of a pool that its workers leave
record Closer (p : ThreadPool) (a : Action) (q : ThreadPool) : Type 0 where
  leaving : IsLeaving q
  closer : (i : ℕ) → worked i a + steps_left (q.pool i) ≤ steps_left (p.pool i)

module _ {p : ThreadPool} (v : IsLeaving p) where
  -- a step that moves no worker
  still :
      (a : Action) (q : ThreadPool)
      → q.is_active ≡ false
      → ((i : ℕ) → q.pool i ≡ p.pool i)
      → ((i : ℕ) → worked i a ≡ 0)
      → Closer p a q
  still a q off same idle = record {
    leaving = record { inactive = off; none_stays = (λ i. ap stays (same i) ∙ v.none_stays i) };
    closer = (λ i. rw (idle i, same i) (omega arith));
  }

  notified_same : (i j : ℕ) → set_worker i (woken (p.pool i)) p.pool j ≡ p.pool j
  notified_same i j = elim (Bool-cases (j == i)) [
    | inr q ↦ rw q
    | inl q ↦ rw q (woken_same (p.pool i) (v.none_stays i) ∙ ap p.pool (sym ((==_iff j i).0 q)))
  ]

  act-Closer : (a : Action) (q : ThreadPool) → act a p ≡ next q → Closer p a q
  unfolding act post deactivate notify_all
  act-Closer (work i) q r =
      let l = run_worker-Left v.inactive i (p.pool i) (v.none_stays i) q r in
      record {
        leaving = record {
          inactive = l.inactive;
          none_stays = (λ j. ap (λ ws. stays (ws j)) l.same ∙ moving l.now l.moves j);
        };
        closer = (λ j.
            subst
              (λ (ws : ℕ → Worker). worked j (work i) + steps_left (ws j) ≤ steps_left (p.pool j))
              (sym l.same) (nearing l.now l.nearer j));
      }
    where
      moving : (w : Worker) → stays w ≡ false → (j : ℕ) → stays (set_worker i w p.pool j) ≡ false
      moving w s j = elim (Bool-cases (j == i)) [ inl e ↦ rw e s | inr e ↦ rw e (v.none_stays j) ]

      nearing :
          (w : Worker)
          → steps_left w + 1 ≤ steps_left (p.pool i)
          → (j : ℕ)
          → worked j (work i) + steps_left (set_worker i w p.pool j) ≤ steps_left (p.pool j)
      nearing w n j = elim (Bool-cases (j == i)) [
        | inl e ↦ rw (e, (==_iff j i).0 e) (near w n)
        | inr e ↦ rw (e, ==_flip j i e) (omega arith)
      ]
        where
          near :
              (w : Worker)
              → steps_left w + 1 ≤ steps_left (p.pool i)
              → worked i (work i) + steps_left w ≤ steps_left (p.pool i)
          near w n = ground arith
  act-Closer (posting job i) q r = tested p.guard r
    where
      tested :
          (g : Option ℕ)
          → (elim g [
            | none ↦ next (notify_one i (record p { pending_jobs = p.pending_jobs ++ job ∷ [] }))
            | some k ↦ blocked
          ])
            ≡ next q
          → Closer p (posting job i) q
      tested none r =
          subst (Closer p (posting job i)) (next_inj r)
            (still _ _ v.inactive (notified_same i) (λ j. refl))
      tested (some k) r = absurd (blocked-next r)
  act-Closer (spurious i) q r =
      subst (Closer p (spurious i)) (next_inj r)
        (still _ _ v.inactive (notified_same i) (λ j. refl))
  act-Closer destroy q r =
      subst (Closer p destroy) (next_inj r) (still _ _ refl (λ i. refl) (λ j. refl))
  act-Closer finish_notify q r = tested p.is_active r
    where
      tested :
          (a : Bool)
          → (if a then blocked else next (notify_all p)) ≡ next q
          → Closer p finish_notify q
      tested true r = absurd (blocked-next r)
      tested false r =
          subst (Closer p finish_notify) (next_inj r)
            (still _ _ v.inactive (λ i. woken_same (p.pool i) (v.none_stays i)) (λ j. refl))

Went-closer :
    {p q : ThreadPool} {acts : List Action}
    → IsLeaving p
    → Went p acts q
    → (i : ℕ) → steps_of i acts + steps_left (q.pool i) ≤ steps_left (p.pool i)
Went-closer v (stopped p) i = omega arith
Went-closer v (went p q t a acts e g) i =
    let c = act-Closer v a q e in
    let d = Went-closer c.leaving g i in let f = c.closer i in omega arith

woken_moves : (w : Worker) → w ≢ blocking → stays (woken w) ≡ false
woken_moves waiting h = refl
woken_moves looping h = refl
woken_moves locking h = refl
woken_moves testing h = refl
woken_moves blocking h = absurd (h refl)
woken_moves checking h = refl
woken_moves taking h = refl
woken_moves (running j) h = refl
woken_moves exited h = refl

Went-IsLeaving : {p q : ThreadPool} {acts : List Action} → IsLeaving p → Went p acts q → IsLeaving q
Went-IsLeaving v (stopped p) = v
Went-IsLeaving v (went p q t a acts e g) = Went-IsLeaving (act-Closer v a q e).leaving g

Went-Reached :
    {n : ℕ} {h : List ℕ} {p q : ThreadPool} {acts : List Action}
    → Reached n h p
    → Went p acts q
    → (h' : List ℕ) × Reached n h' q
Went-Reached {h = h} r (stopped p) = (h, r)
Went-Reached {h = h} r (went p q t a acts e g) = Went-Reached (acted h p q a r e) g

most_steps : (w : Worker) → stays w ≡ false → steps_left w ≤ 6
most_steps looping s = omega arith
most_steps locking s = omega arith
most_steps testing s = omega arith
most_steps blocking s = absurd (true-false s)
most_steps waiting s = absurd (true-false s)
most_steps checking s = omega arith
most_steps taking s = omega arith
most_steps (running j) s = omega arith
most_steps exited s = omega arith

-- a worker that does not wait for the mutex can go on
free_to_go :
    (p : ThreadPool) (i : ℕ) (w : Worker)
    → run_worker i w p ≢ undefined
    → stays w ≡ false
    → (w ≡ locking → p.guard ≡ none)
    → (w ≡ exited) ⊎ ((q : ThreadPool) × (run_worker i w p ≡ next q))
unfolding run_worker
free_to_go p i looping d s g = inr (_, refl)
free_to_go p i locking d s g = inr (
  _,
  ap
      (λ (o : Option ℕ). elim o [
        | none ↦ next (record (moved i testing p) { guard = some i })
        | some k ↦ blocked
      ])
      (g refl),
)
free_to_go p i testing d s g = go p.pending_jobs
  where
    go :
        (js : List ℕ)
        → (testing ≡ exited)
          ⊎ ((q : ThreadPool) × (elim js [
            | [] ↦ next (moved i (if not p.is_active then checking else blocking) p)
            | j ∷ js ↦ next (moved i checking p)
          ])
                ≡ next q)
    go [] = inr (_, refl)
    go (j ∷ js) = inr (_, refl)
free_to_go p i blocking d s g = absurd (true-false s)
free_to_go p i waiting d s g = absurd (true-false s)
free_to_go p i checking d s g = go p.is_active
  where
    go :
        (a : Bool)
        → (checking ≡ exited)
          ⊎ ((q : ThreadPool) × ((if not a
                  then next (record (moved i exited p) { guard = none })
                  else next (moved i taking p))
                ≡ next q))
    go true = inr (_, refl)
    go false = inr (_, refl)
free_to_go p i taking d s g = go p.pending_jobs d
  where
    step : List ℕ → Progress
    step js = elim js [
      | [] ↦ undefined
      | j ∷ js ↦ next (record (moved i (running j) p) {
        pending_jobs = js;
        guard = none;
        taken = p.taken ++ j ∷ [];
      })
    ]

    go :
        (js : List ℕ)
        → step js ≢ undefined
        → (taking ≡ exited) ⊎ ((q : ThreadPool) × (step js ≡ next q))
    go [] d = absurd (d refl)
    go (j ∷ js) d = inr (_, refl)
free_to_go p i (running j) d s g = inr (_, refl)
free_to_go p i exited d s g = inl refl

someone_goes :
    {h : List ℕ} {p : ThreadPool}
    → IsSafe h p
    → IsLeaving p
    → (i : ℕ) → (p.pool i ≡ exited) ⊎ ((k : ℕ) × (q : ThreadPool) × (act (work k) p ≡ next q))
unfolding act
someone_goes {p = p} v l i = elim (Option-cases p.guard) [
  | inl g ↦ elim (free_to_go p i (p.pool i) (act_defined v (work i)) (l.none_stays i) (λ e. g)) [
    | inl e ↦ inl e
    | inr (q, e) ↦ inr (i, q, e)
  ]
  | inr (k, g) ↦
      let busy = (v.fits k).excludes.1 g in
      elim (free_to_go p k (p.pool k) (act_defined v (work k)) (l.none_stays k)
        (λ e. absurd (idle-busy locking (ap holds e) busy refl))) [
          | inl e ↦ absurd (idle-busy exited (ap holds e) busy refl)
          | inr (q, e) ↦ inr (k, q, e)
        ]
]
  where
    idle-busy : (w : Worker) {b : Bool} → b ≡ holds w → b ≡ true → holds w ≡ false → ⊥
    idle-busy w e t f = true-false (sym t ∙ e ∙ f)

notify_all-IsLeaving :
    (p : ThreadPool)
    → p.is_active ≡ false
    → ((i : ℕ) → p.pool i ≢ blocking)
    → IsLeaving (notify_all p)
unfolding notify_all
notify_all-IsLeaving p off h = record {
  inactive = off;
  none_stays = (λ i. woken_moves (p.pool i) (h i));
}

notify_all-next : (p : ThreadPool) → p.is_active ≡ false → act finish_notify p ≡ next (notify_all p)
unfolding act
notify_all-next p off = ap (λ (a : Bool). if a then blocked else next (notify_all p)) off

-- Where the destructor's notification comes while no worker stands between its test and its wait, the workers
-- leave: in any series of steps from there a worker takes at most six, the end of a job being
-- one, and as long as it has not left some worker can go on, so no join waits for ever. Premises: the
-- pool is one that the program reaches, and its flag is clear.
pub Went-exits :
    {n : ℕ} {h : List ℕ} {p q : ThreadPool} {acts : List Action}
    → Reached n h p
    → p.is_active ≡ false
    → ((i : ℕ) → p.pool i ≢ blocking)
    → Went (notify_all p) acts q
    → (i : ℕ)
    → (steps_of i acts + steps_left (q.pool i) ≤ 6)
      × ((q.pool i ≡ exited) ⊎ ((k : ℕ) × (t : ThreadPool) × (act (work k) q ≡ next t)))
Went-exits {h = h} {p = p} r off k w i =
    let l = notify_all-IsLeaving p off k in
    let (h', r') =
      Went-Reached (acted h p (notify_all p) finish_notify r (notify_all-next p off)) w in
    let few = Went-closer l w i in
    let most = most_steps ((notify_all p).pool i) (l.none_stays i) in
    (omega arith, someone_goes (Reached-IsSafe r') (Went-IsLeaving l w) i)
