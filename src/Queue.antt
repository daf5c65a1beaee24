-- ===== src/Queue.antt =====
-- inc/SpscQueue.hpp: the ring of one producer and one consumer. Here each operation runs whole;
-- Queue.Steps has them as interleaved accesses.
pub mod Fifo
pub mod Refine
pub mod Steps
pub mod Threads
mod Tests
use mathlib.Core.Option
use elephant_shrew.Prelude.{
  ℕ, ◌+◌, ◌-◌, ◌^◌, Bool, true, false, ◌||◌, List, [], ◌∷◌, Option, none, some, length, get_elem?,
  set, replicate, ltb, ◌==◌, if◌then◌else◌, ◌>>=◌,
}

-- `slots_`, `head_` and `tail_`
pub record Queue (A : Type 0) : Type 0 where
  pub slots : List A
  pub head : ℕ
  pub tail : ℕ

-- what a caller does, and what it is told
pub data Op (A : Type 0) : Type 0 where
  push : A → Op A
  pop : Op A

pub data Answer (A : Type 0) : Type 0 where
  pushed : Bool → Answer A
  popped : Option A → Answer A

module _ {A : Type 0} where
  -- `Next`
  abbrev pub next_slot : List A → ℕ → ℕ
  next_slot slots i = if i + 1 == length slots then 0 else i + 1

  -- The constructor; `none` where it throws. `fill` is the value that `resize` fills in.
  unfoldable pub make_queue : A → ℕ → Option (Queue A)
  make_queue fill capacity =
      if capacity == 0 || capacity == 2 ^ 64 - 1
      then none
      else some (record { slots = replicate (capacity + 1) fill; head = 0; tail = 0 })

  -- `TryPush`; `none` is a write outside of the slots
  unfoldable pub try_push : A → Queue A → Option (Bool × Queue A)
  try_push value q =
      let next = next_slot q.slots q.head in
      if next == q.tail
      then some (false, q)
      else if ltb q.head (length q.slots)
      then some (true, record q { slots = set q.slots q.head value; head = next })
      else none

  -- `TryPop`; `none` is a read outside of the slots
  unfoldable pub try_pop : Queue A → Option (Option A × Queue A)
  try_pop q =
      if q.tail == q.head
      then some (none, q)
      else Option.map (λ v. (some v, record q { tail = next_slot q.slots q.tail }))
          (get_elem? q.slots q.tail)

  unfoldable pub call : Op A → Queue A → Option (Answer A × Queue A)
  call (push v) q = Option.map (λ r. (pushed r.0, r.1)) (try_push v q)
  call pop q = Option.map (λ r. (popped r.0, r.1)) (try_pop q)

  -- a series of calls, with their answers in order
  unfoldable pub calls : List (Op A) → Queue A → Option (List (Answer A) × Queue A)
  calls [] q = some ([], q)
  calls (op ∷ ops) q = do
    (a, q') ← call op q
    (answers, q'') ← calls ops q'
    some (a ∷ answers, q'')
