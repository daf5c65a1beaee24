-- ===== src/ThreadPool.antt =====
-- src/ThreadPool.cpp, inc/ThreadPool.hpp: the queue of jobs, the worker threads and their condition
-- variable. A step is what one thread does until it takes or gives back the mutex, waits, or reads or
-- writes `m_is_active`, which is not under the mutex.
pub mod Safe
pub mod Exits
mod Tests
use elephant_shrew.Prelude.{
  ℕ, zero, suc, Bool, true, false, not, ◌&&◌, ◌||◌, List, [], ◌∷◌, ◌++◌, Option, none, some, ltb,
  ◌==◌, if◌then◌else◌,
}

-- where a worker is in `Run`: at the loop's test, waiting for the mutex, at the test of the wait, after a
-- test that fails and before the wait, in the wait, after the wait, before `front`, in the job, or gone
pub data Worker : Type 0 where
  looping locking testing blocking waiting checking taking : Worker
  running : (job : ℕ) → Worker
  exited : Worker

-- A job is a number. `guard` is the thread that has the mutex, and `taken` are the jobs taken so far.
pub record ThreadPool : Type 0 where
  pub is_active : Bool
  pub pending_jobs : List ℕ
  pub guard : Option ℕ
  pub pool : ℕ → Worker
  pub taken : List ℕ

-- a step that has to wait, one that is undefined in C++, or the state after it
pub data Progress : Type 0 where
  blocked undefined : Progress
  next : ThreadPool → Progress

-- `ThreadPool(int)`
abbrev pub make_pool : ℕ → ThreadPool
make_pool num_threads = record {
  is_active = true;
  pending_jobs = [];
  guard = none;
  pool = λ i. if ltb i num_threads then looping else exited;
  taken = [];
}

abbrev pub set_worker : ℕ → Worker → (ℕ → Worker) → ℕ → Worker
set_worker i w ws j = if j == i then w else ws j

abbrev pub moved : ℕ → Worker → ThreadPool → ThreadPool
moved i w p = record p { pool = set_worker i w p.pool }

-- the next step of worker `i` in `Run`
unfoldable pub run_worker : ℕ → Worker → ThreadPool → Progress
run_worker i looping p = next (moved i (if p.is_active then locking else exited) p)
run_worker i locking p = elim p.guard [
  | none ↦ next (record (moved i testing p) { guard = some i })
  | some k ↦ blocked
]
run_worker i testing p = elim p.pending_jobs [
  | [] ↦ next (moved i (if not p.is_active then checking else blocking) p)
  | j ∷ js ↦ next (moved i checking p)
]
run_worker i blocking p = next (record (moved i waiting p) { guard = none })
run_worker i waiting p = blocked
run_worker i checking p =
    if not p.is_active
    then next (record (moved i exited p) { guard = none })
    else next (moved i taking p)
run_worker i taking p = elim p.pending_jobs [
  | [] ↦ undefined
  | j ∷ js ↦ next (record (moved i (running j) p) {
    pending_jobs = js;
    guard = none;
    taken = p.taken ++ j ∷ [];
  })
]
run_worker i (running j) p = next (moved i looping p)
run_worker i exited p = blocked

-- a notification ends a wait
abbrev pub woken : Worker → Worker
woken waiting = locking
woken w = w

-- `notify_one`, for the thread `i` that it reaches if that one waits
abbrev pub notify_one : ℕ → ThreadPool → ThreadPool
notify_one i p = moved i (woken (p.pool i)) p

-- `Post` of a job
unfoldable pub post : ℕ → ℕ → ThreadPool → Progress
post job i p = elim p.guard [
  | none ↦ next (notify_one i (record p { pending_jobs = p.pending_jobs ++ job ∷ [] }))
  | some k ↦ blocked
]

-- the destructor up to the joins, in two steps
unfoldable pub deactivate : ThreadPool → ThreadPool
deactivate p = record p { is_active = false }

unfoldable pub notify_all : ThreadPool → ThreadPool
notify_all p = record p { pool = λ i. woken (p.pool i) }

-- what may come next; a wait may also end by itself
pub data Action : Type 0 where
  work : (i : ℕ) → Action
  posting : (job : ℕ) (i : ℕ) → Action
  spurious : (i : ℕ) → Action
  destroy finish_notify : Action

unfoldable pub act : Action → ThreadPool → Progress
act (work i) p = run_worker i (p.pool i) p
act (posting job i) p = post job i p
act (spurious i) p = next (notify_one i p)
act destroy p = next (deactivate p)
act finish_notify p = if p.is_active then blocked else next (notify_all p)
