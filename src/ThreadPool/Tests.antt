-- ===== src/ThreadPool/Tests.antt =====
-- Pools of one and two workers, and the theorems at them.
use elephant_shrew.Prelude.{
  ℕ, ◌+◌, ◌≤◌, ◌≡◌, ◌≢◌, ◌⊎◌, refl, Bool, true, false, List, [], ◌∷◌, ◌++◌, ltb, if◌then◌else◌,
}
use elephant_shrew.ThreadPool.{
  looping, blocking, exited, ThreadPool, Progress, blocked, undefined, next, make_pool, moved,
  run_worker, notify_one, post, deactivate, notify_all, Action, work, posting, destroy,
  finish_notify, act,
}
use elephant_shrew.ThreadPool.Safe.{Reached, made, acted, holds, Reached-safe}
use elephant_shrew.ThreadPool.Exits.{Went, stopped, went, steps_of, steps_left, Went-exits}

after : List Action → Progress → Progress
after [] s = s
after (a ∷ acts) blocked = blocked
after (a ∷ acts) undefined = undefined
after (a ∷ acts) (next p) = after acts (act a p)

abbrev goes_on : Progress → Bool
goes_on (next p) = true
goes_on s = false

-- The worker tests, the destructor clears the flag and notifies, and then the worker waits: no
-- step of its own is left, and the join of the destructor waits for it.
abbrev unlucky : List Action
unlucky = work 0 ∷ work 0 ∷ work 0 ∷ destroy ∷ finish_notify ∷ work 0 ∷ []

unlucky_so_far : goes_on (after unlucky (next (make_pool 1))) ≡ true
unfolding after act run_worker deactivate notify_all
unlucky_so_far = refl

unlucky_worker : after (unlucky ++ work 0 ∷ []) (next (make_pool 1)) ≡ blocked
unfolding after act run_worker deactivate notify_all
unlucky_worker = refl

abbrev seven : List ℕ
seven = 7 ∷ []

abbrev posted_seven : ThreadPool
posted_seven = notify_one 0 (record (make_pool 2) { pending_jobs = 7 ∷ [] })

posted_seven-Reached : Reached 2 seven posted_seven
unfolding act post
posted_seven-Reached = acted [] (make_pool 2) posted_seven (posting 7 0) made refl

Reached-safe_example :
    ((a : Action) → act a posted_seven ≢ undefined)
    × ((i j : ℕ) → holds (posted_seven.pool i) ≡ true → holds (posted_seven.pool j) ≡ true → i ≡ j)
    × (seven ≡ [] ++ seven)
Reached-safe_example = Reached-safe posted_seven-Reached

abbrev off : ThreadPool
off = record (make_pool 1) { is_active = false }

off-Reached : Reached 1 [] off
unfolding act deactivate
off-Reached = acted [] (make_pool 1) off destroy made refl

off_moves : (i : ℕ) → off.pool i ≢ blocking
off_moves i = go (ltb i 1)
  where
    go : (b : Bool) → (if b then looping else exited) ≢ blocking
    go true e = cc
    go false e = cc

off-Went : Went (notify_all off) (work 0 ∷ []) (moved 0 exited (notify_all off))
unfolding act run_worker notify_all
off-Went =
    went (notify_all off) (moved 0 exited (notify_all off)) _ (work 0) [] refl
      (stopped (moved 0 exited (notify_all off)))

Went-exits_example :
    (steps_of 0 (work 0 ∷ []) + steps_left ((moved 0 exited (notify_all off)).pool 0) ≤ 6)
    × (((moved 0 exited (notify_all off)).pool 0 ≡ exited)
        ⊎ ((k : ℕ) × (t : ThreadPool) × (act (work k) (moved 0 exited (notify_all off)) ≡ next t)))
Went-exits_example = Went-exits off-Reached refl off_moves off-Went 0
