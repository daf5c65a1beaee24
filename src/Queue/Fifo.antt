-- ===== src/Queue/Fifo.antt =====
-- What the queue promises: a list of at most `capacity` values, first in, first out.
use elephant_shrew.Prelude.{
  ℕ, true, false, List, [], ◌∷◌, ◌++◌, none, some, length, ltb, if◌then◌else◌,
}
use elephant_shrew.Queue.{Op, push, pop, Answer, pushed, popped}

module _ {A : Type 0} (capacity : ℕ) where
  abbrev pub fifo_call : Op A → List A → Answer A × List A
  fifo_call (push v) xs =
      if ltb (length xs) capacity then (pushed true, xs ++ v ∷ []) else (pushed false, xs)
  fifo_call pop [] = (popped none, [])
  fifo_call pop (x ∷ xs) = (popped (some x), xs)

  abbrev pub fifo_calls : List (Op A) → List A → List (Answer A) × List A
  fifo_calls [] xs = ([], xs)
  fifo_calls (op ∷ ops) xs =
      let (a, xs') = fifo_call op xs in
      let (answers, xs'') = fifo_calls ops xs' in (a ∷ answers, xs'')
