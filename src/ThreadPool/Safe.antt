-- ===== src/ThreadPool/Safe.antt =====
-- No worker takes a job from an empty queue, and the jobs are taken in the order of their posts.
use mathlib.Core.Path.{subst}
use mathlib.Core.List.{append-nil, append_assoc}
use elephant_shrew.Prelude.{
  ℕ, ◌≡◌, ◌≢◌, ◌↔◌, refl, sym, ap, ◌∙◌, Bool, true, false, not, List, [], ◌∷◌, ◌++◌, Option, none,
  some, some_inj, ◌==◌, ltb, ==_iff, if◌then◌else◌, Bool-cases, Option-cases, inl, inr, ◌⊎◌,
}
use elephant_shrew.ThreadPool.{
  Worker, looping, locking, testing, blocking, waiting, checking, taking, running, exited,
  ThreadPool, blocked, undefined, next, make_pool, set_worker, moved, run_worker, woken, notify_one,
  post, deactivate, notify_all, Action, work, posting, spurious, destroy, finish_notify, act,
}

-- the workers that have the mutex
abbrev pub holds : Worker → Bool
holds testing = true
holds blocking = true
holds checking = true
holds taking = true
holds w = false

-- those that go on to `front`
abbrev ready : Bool → Worker → Bool
ready active taking = true
ready active checking = active
ready active w = false

-- what holds of worker `i`, with the mutex, the queue and the flag
pub record Fits (guard : Option ℕ) (jobs : List ℕ) (active : Bool) (i : ℕ) (w : Worker)
    : Type 0 where
  pub excludes : (holds w ≡ true) ↔ (guard ≡ some i)
  pub supplied : ready active w ≡ true → jobs ≢ []

pub record IsSafe (posted : List ℕ) (p : ThreadPool) : Type 0 where
  pub fits : (i : ℕ) → Fits p.guard p.pending_jobs p.is_active i (p.pool i)
  pub ordered : posted ≡ p.taken ++ p.pending_jobs

true-false : true ≡ false → ⊥
true-false h = cc

cons-nil : {j : ℕ} {js : List ℕ} → j ∷ js ≡ [] → ⊥
cons-nil h = cc

blocked-undefined : blocked ≡ undefined → ⊥
blocked-undefined h = cc

next-undefined : {q : ThreadPool} → next q ≡ undefined → ⊥
next-undefined h = cc

pub blocked-next : {q : ThreadPool} → blocked ≡ next q → ⊥
blocked-next h = cc

pub undefined-next : {q : ThreadPool} → undefined ≡ next q → ⊥
undefined-next h = cc

pub next_inj : {p q : ThreadPool} → next p ≡ next q → p ≡ q
next_inj h = cc

none-some : {i : ℕ} → none ≡ some i → ⊥
none-some h = cc

ready-holds : (a : Bool) (w : Worker) → ready a w ≡ true → holds w ≡ true
ready-holds a looping h = absurd (true-false (sym h))
ready-holds a locking h = absurd (true-false (sym h))
ready-holds a testing h = refl
ready-holds a blocking h = refl
ready-holds a waiting h = absurd (true-false (sym h))
ready-holds a checking h = refl
ready-holds a taking h = refl
ready-holds a (running j) h = absurd (true-false (sym h))
ready-holds a exited h = absurd (true-false (sym h))

ready_less : (a : Bool) (w : Worker) → ready false w ≡ true → ready a w ≡ true
ready_less a looping h = h
ready_less a locking h = h
ready_less a testing h = h
ready_less a blocking h = h
ready_less a waiting h = h
ready_less a checking h = absurd (true-false (sym h))
ready_less a taking h = h
ready_less a (running j) h = h
ready_less a exited h = h

pub List-cases : (xs : List ℕ) → (xs ≡ []) ⊎ ((j : ℕ) × (js : List ℕ) × (xs ≡ j ∷ js))
List-cases [] = inl refl
List-cases (j ∷ js) = inr (j, js, refl)

module _ {g : Option ℕ} {js : List ℕ} {a : Bool} {i : ℕ} where
  -- a worker without the mutex fits any queue
  free-Fits : (w : Worker) → holds w ≡ false → g ≢ some i → Fits g js a i w
  free-Fits w f h = record {
    excludes = (λ t. absurd (true-false (sym t ∙ f)), λ e. absurd (h e));
    supplied = λ r. absurd (true-false (sym (ready-holds a w r) ∙ f));
  }

  woken-Fits : (w : Worker) → Fits g js a i w → Fits g js a i (woken w)
  woken-Fits looping v = v
  woken-Fits locking v = v
  woken-Fits testing v = v
  woken-Fits blocking v = v
  woken-Fits waiting v = record { excludes = v.excludes; supplied = v.supplied }
  woken-Fits checking v = v
  woken-Fits taking v = v
  woken-Fits (running j) v = v
  woken-Fits exited v = v

  -- who holds nothing does not have the mutex
  apart : {w : Worker} → Fits g js a i w → holds w ≡ false → g ≢ some i
  apart v f e = true-false (sym (v.excludes.1 e) ∙ f)

  unheld : {w : Worker} → Fits g js a i w → g ≢ some i → holds w ≡ false
  unheld {w} v h = elim (Bool-cases (holds w)) [ inl p ↦ absurd (h (v.excludes.0 p)) | inr p ↦ p ]

-- One worker moves, and the others fit what it leaves behind.
set_worker-Fits :
    (g : Option ℕ) (js : List ℕ) (a : Bool) (i : ℕ) (w : Worker) (ws : ℕ → Worker)
    → Fits g js a i w
    → ((j : ℕ) → j ≢ i → Fits g js a j (ws j))
    → (j : ℕ) → Fits g js a j (set_worker i w ws j)
set_worker-Fits g js a i w ws v h j = elim (Bool-cases (j == i)) [
  | inl p ↦ rw p (subst (λ (k : ℕ). Fits g js a k w) (sym ((==_iff j i).0 p)) v)
  | inr p ↦ rw p (h j (λ e. true-false (sym ((==_iff j i).1 e) ∙ p)))
]

module _ {h : List ℕ} {p : ThreadPool} (v : IsSafe h p) (i : ℕ) where
  -- after worker `i` gave back the mutex
  others_free :
      p.guard ≡ some i → (js : List ℕ) (a : Bool) (j : ℕ) → j ≢ i → Fits none js a j (p.pool j)
  others_free e js a j k =
      free-Fits (p.pool j) (unheld (v.fits j) (λ f. k (sym (some_inj (sym e ∙ f))))) none-some

  -- after it took the mutex
  others_held :
      p.guard ≡ none → (js : List ℕ) (a : Bool) (j : ℕ) → j ≢ i → Fits (some i) js a j (p.pool j)
  others_held e js a j k =
      free-Fits (p.pool j) (unheld (v.fits j) (λ f. none-some (sym e ∙ f)))
        (λ f. k (sym (some_inj f)))

  own : {w : Worker} → p.pool i ≡ w → Fits p.guard p.pending_jobs p.is_active i w
  own e = subst (λ (w : Worker). Fits p.guard p.pending_jobs p.is_active i w) e (v.fits i)

  moved-IsSafe : (w : Worker) → Fits p.guard p.pending_jobs p.is_active i w → IsSafe h (moved i w p)
  moved-IsSafe w f = record {
    fits = set_worker-Fits p.guard p.pending_jobs p.is_active i w p.pool f (λ j k. v.fits j);
    ordered = v.ordered;
  }

  -- one that holds nothing before and after
  idle-IsSafe :
      {w : Worker} (w' : Worker)
      → p.pool i ≡ w
      → holds w ≡ false
      → holds w' ≡ false
      → IsSafe h (moved i w' p)
  idle-IsSafe w' e f f' = moved-IsSafe w' (free-Fits w' f' (apart (own e) f))

  -- one that has the mutex before and after
  busy-IsSafe :
      {w : Worker} (w' : Worker)
      → p.pool i ≡ w
      → holds w ≡ true
      → holds w' ≡ true
      → (ready p.is_active w' ≡ true → p.pending_jobs ≢ [])
      → IsSafe h (moved i w' p)
  busy-IsSafe w' e f f' k =
      moved-IsSafe w' (record { excludes = (λ t. (own e).excludes.0 f, λ t. f'); supplied = k })

  -- one that gives back the mutex
  freed-IsSafe :
      {w : Worker} (w' : Worker) (js taken : List ℕ)
      → p.pool i ≡ w
      → holds w ≡ true
      → holds w' ≡ false
      → h ≡ taken ++ js
      → IsSafe h (record (moved i w' p) { guard = none; pending_jobs = js; taken = taken })
  freed-IsSafe w' js taken e f f' o = record {
    fits =
        set_worker-Fits none js p.is_active i w' p.pool (free-Fits w' f' none-some)
          (others_free ((own e).excludes.0 f) js p.is_active);
    ordered = o;
  }

  -- each step of a worker
  run_worker-IsSafe :
      (w : Worker) → p.pool i ≡ w → (q : ThreadPool) → run_worker i w p ≡ next q → IsSafe h q
  unfolding run_worker
  run_worker-IsSafe looping e q r =
      subst (IsSafe h) (next_inj r) (idle-IsSafe _ e refl (tested p.is_active))
    where
      tested : (a : Bool) → holds (if a then locking else exited) ≡ false
      tested true = refl
      tested false = refl
  run_worker-IsSafe locking e q r = elim (Option-cases p.guard) [
    | inr (k, g) ↦ absurd (blocked-next (rw (g, run_worker) at r))
    | inl g ↦ subst (IsSafe h) (next_inj (rw (g, run_worker) at r)) (record {
      fits =
          set_worker-Fits (some i) p.pending_jobs p.is_active i testing p.pool
            (record {
              excludes = (λ t. refl, λ t. refl);
              supplied = λ t. absurd (true-false (sym t));
            })
            (others_held g p.pending_jobs p.is_active);
      ordered = v.ordered;
    })
  ]
  run_worker-IsSafe testing e q r = elim (List-cases p.pending_jobs) [
    | inr (j, js, g) ↦
        subst (IsSafe h) (next_inj (rw (g, run_worker) at r))
          (busy-IsSafe checking e refl refl (λ t n. cons-nil (sym g ∙ n)))
    | inl g ↦ subst (IsSafe h) (next_inj (rw (g, run_worker) at r)) (tested p.is_active refl)
  ]
    where
      tested :
          (a : Bool) → p.is_active ≡ a → IsSafe h (moved i (if not a then checking else blocking) p)
      tested true k = busy-IsSafe blocking e refl refl (λ t. absurd (true-false (sym t)))
      tested false k = busy-IsSafe checking e refl refl (λ t. absurd (true-false (sym t ∙ k)))
  run_worker-IsSafe blocking e q r =
      subst (IsSafe h) (next_inj r)
        (freed-IsSafe waiting p.pending_jobs p.taken e refl refl v.ordered)
  run_worker-IsSafe waiting e q r = absurd (blocked-next r)
  run_worker-IsSafe checking e q r = tested p.is_active refl r
    where
      tested :
          (a : Bool)
          → p.is_active ≡ a
          → (if not a
              then next (record (moved i exited p) { guard = none })
              else next (moved i taking p))
            ≡ next q
          → IsSafe h q
      tested true k r =
          subst (IsSafe h) (next_inj r) (busy-IsSafe taking e refl refl (λ t. (own e).supplied k))
      tested false k r =
          subst (IsSafe h) (next_inj r)
            (freed-IsSafe exited p.pending_jobs p.taken e refl refl v.ordered)
  run_worker-IsSafe taking e q r = elim (List-cases p.pending_jobs) [
    | inl g ↦ absurd (undefined-next (rw (g, run_worker) at r))
    | inr (j, js, g) ↦ subst (IsSafe h) (next_inj (rw (g, run_worker) at r)) (
        freed-IsSafe (running j) js (p.taken ++ j ∷ []) e refl refl
          (v.ordered ∙ ap (λ l. p.taken ++ l) g ∙ sym (append_assoc p.taken (j ∷ []) js)))
  ]
  run_worker-IsSafe (running j) e q r =
      subst (IsSafe h) (next_inj r) (idle-IsSafe looping e refl refl)
  run_worker-IsSafe exited e q r = absurd (blocked-next r)

abbrev pub posted_by : Action → List ℕ
posted_by (posting job i) = job ∷ []
posted_by a = []

-- a life of the pool, with the jobs posted so far
pub data Reached (n : ℕ) : List ℕ → ThreadPool → Type 0 where
  made : Reached n [] (make_pool n)
  acted :
      (h : List ℕ) (p q : ThreadPool) (a : Action)
      → Reached n h p
      → act a p ≡ next q
      → Reached n (h ++ posted_by a) q

-- a step that only ends waits
woken-IsSafe :
    {h : List ℕ} {p : ThreadPool}
    → IsSafe h p
    → (ws : ℕ → Worker) → ((j : ℕ) → (ws j ≡ p.pool j) ⊎ (ws j ≡ woken (p.pool j)))
    → IsSafe h (record p { pool = ws })
woken-IsSafe {h} {p} v ws e = record {
  fits = (λ j. elim (e j) [
    | inl q ↦ subst (Fits p.guard p.pending_jobs p.is_active j) (sym q) (v.fits j)
    | inr q ↦
        subst (Fits p.guard p.pending_jobs p.is_active j) (sym q) (woken-Fits (p.pool j) (v.fits j))
  ]);
  ordered = v.ordered;
}

notified-woken :
    (p : ThreadPool) (i j : ℕ)
    → (set_worker i (woken (p.pool i)) p.pool j ≡ p.pool j)
      ⊎ (set_worker i (woken (p.pool i)) p.pool j ≡ woken (p.pool j))
notified-woken p i j = elim (Bool-cases (j == i)) [
  | inl q ↦ inr (rw q (ap (λ k. woken (p.pool k)) (sym ((==_iff j i).0 q))))
  | inr q ↦ inl (rw q)
]

module _ {h : List ℕ} {p : ThreadPool} (v : IsSafe h p) where
  -- a job more for the queue, while no one has the mutex
  queued-IsSafe :
      (job : ℕ)
      → p.guard ≡ none
      → IsSafe (h ++ job ∷ []) (record p { pending_jobs = p.pending_jobs ++ job ∷ [] })
  queued-IsSafe job g = record {
    fits = (λ j. free-Fits (p.pool j) (unheld (v.fits j) (free j)) (free j));
    ordered = ap (λ l. l ++ job ∷ []) v.ordered ∙ append_assoc p.taken p.pending_jobs (job ∷ []);
  }
    where
      free : (j : ℕ) → p.guard ≢ some j
      free j f = none-some (sym g ∙ f)

  act-IsSafe : (a : Action) (q : ThreadPool) → act a p ≡ next q → IsSafe (h ++ posted_by a) q
  unfolding act post deactivate notify_all
  act-IsSafe (work i) q r =
      subst (λ (l : List ℕ). IsSafe l q) (sym (append-nil h))
        (run_worker-IsSafe v i (p.pool i) refl q r)
  act-IsSafe (posting job i) q r = tested p.guard refl r
    where
      tested :
          (g : Option ℕ)
          → p.guard ≡ g
          → (elim g [
            | none ↦ next (notify_one i (record p { pending_jobs = p.pending_jobs ++ job ∷ [] }))
            | some k ↦ blocked
          ])
            ≡ next q
          → IsSafe (h ++ job ∷ []) q
      tested none g r =
          subst (IsSafe (h ++ job ∷ [])) (next_inj r)
            (woken-IsSafe (queued-IsSafe job g) _ (notified-woken p i))
      tested (some k) g r = absurd (blocked-next r)
  act-IsSafe (spurious i) q r =
      subst (λ (l : List ℕ). IsSafe l q) (sym (append-nil h))
        (subst (IsSafe h) (next_inj r) (woken-IsSafe v _ (notified-woken p i)))
  act-IsSafe destroy q r =
      subst (λ (l : List ℕ). IsSafe l q) (sym (append-nil h))
        (subst (IsSafe h) (next_inj r) (record {
          fits = (λ j. record {
            excludes = (v.fits j).excludes;
            supplied = λ t. (v.fits j).supplied (ready_less p.is_active (p.pool j) t);
          });
          ordered = v.ordered;
        }))
  act-IsSafe finish_notify q r = tested p.is_active r
    where
      notified : IsSafe h (notify_all p)
      notified =
          let w = woken-IsSafe v (λ i. woken (p.pool i)) (λ j. inr refl) in
          record { fits = w.fits; ordered = w.ordered }

      tested :
          (a : Bool) → (if a then blocked else next (notify_all p)) ≡ next q → IsSafe (h ++ []) q
      tested true r = absurd (blocked-next r)
      tested false r =
          subst (λ (l : List ℕ). IsSafe l q) (sym (append-nil h))
            (subst (IsSafe h) (next_inj r) notified)

  run_worker_defined : (i : ℕ) (w : Worker) → p.pool i ≡ w → run_worker i w p ≢ undefined
  unfolding run_worker
  run_worker_defined i looping e r = cc
  run_worker_defined i locking e r = elim (Option-cases p.guard) [
    | inl g ↦ next-undefined (rw (g, run_worker) at r)
    | inr (k, g) ↦ blocked-undefined (rw (g, run_worker) at r)
  ]
  run_worker_defined i testing e r = elim (List-cases p.pending_jobs) [
    | inl g ↦ next-undefined (rw (g, run_worker) at r)
    | inr (j, js, g) ↦ next-undefined (rw (g, run_worker) at r)
  ]
  run_worker_defined i blocking e r = next-undefined r
  run_worker_defined i waiting e r = blocked-undefined r
  run_worker_defined i checking e r = elim (Bool-cases p.is_active) [
    | inl k ↦ next-undefined (rw (k, run_worker) at r)
    | inr k ↦ next-undefined (rw (k, run_worker) at r)
  ]
  run_worker_defined i taking e r = elim (List-cases p.pending_jobs) [
    | inl g ↦ (own v i e).supplied refl g
    | inr (j, js, g) ↦ next-undefined (rw (g, run_worker) at r)
  ]
  run_worker_defined i (running j) e r = next-undefined r
  run_worker_defined i exited e r = blocked-undefined r

  pub act_defined : (a : Action) → act a p ≢ undefined
  unfolding act post
  act_defined (work i) r = run_worker_defined i (p.pool i) refl r
  act_defined (posting job i) r = elim (Option-cases p.guard) [
    | inl g ↦ next-undefined (rw (g, act, post) at r)
    | inr (k, g) ↦ blocked-undefined (rw (g, act, post) at r)
  ]
  act_defined (spurious i) r = next-undefined r
  act_defined destroy r = next-undefined r
  act_defined finish_notify r = elim (Bool-cases p.is_active) [
    | inl k ↦ blocked-undefined (rw (k, act) at r)
    | inr k ↦ next-undefined (rw (k, act) at r)
  ]

pub Reached-IsSafe : {n : ℕ} {h : List ℕ} {p : ThreadPool} → Reached n h p → IsSafe h p
Reached-IsSafe {n} made = record {
  fits = (λ i. free-Fits ((make_pool n).pool i) (idle (ltb i n)) none-some);
  ordered = refl;
}
  where
    idle : (b : Bool) → holds (if b then looping else exited) ≡ false
    idle true = refl
    idle false = refl
Reached-IsSafe (acted h p q a r e) = act-IsSafe (Reached-IsSafe r) a q e

-- In every life of a pool of any number of threads, however their steps interleave: no worker reads the front of
-- an empty queue, no two workers have the mutex, and the jobs taken, followed by those that
-- wait, are the jobs posted, in order, each once.
pub Reached-safe :
    {n : ℕ} {h : List ℕ} {p : ThreadPool}
    → Reached n h p
    → ((a : Action) → act a p ≢ undefined)
      × ((i j : ℕ) → holds (p.pool i) ≡ true → holds (p.pool j) ≡ true → i ≡ j)
      × (h ≡ p.taken ++ p.pending_jobs)
Reached-safe {p = p} r =
    let v = Reached-IsSafe r in
    (
      act_defined v,
      λ i j s t. some_inj (sym ((v.fits i).excludes.0 s) ∙ (v.fits j).excludes.0 t),
      v.ordered,
    )
