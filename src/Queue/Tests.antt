-- ===== src/Queue/Tests.antt =====
-- A ring for two values, filled and emptied past its end.
use mathlib.Core.Option
use elephant_shrew.Prelude.{
  ℕ, ◌≡◌, ◌≢◌, ◌≤◌, ◌++◌, length, refl, true, false, List, [], ◌∷◌, some, none,
}
use elephant_shrew.Queue.{
  Queue, make_queue, try_push, try_pop, Op, push, pop, Answer, pushed, popped, call, calls,
}
use elephant_shrew.Queue.Fifo.{fifo_calls}
use elephant_shrew.Queue.Refine.{calls-fifo_calls}
use elephant_shrew.Queue.Steps.{
  writing, reading, Threads, ThreadTurn, push_turn, producer_turn, pop_turn, fault, begin_push,
  push_on, begin_pop, take_turn,
}
use elephant_shrew.Queue.Threads.{begun, Ran, made, turned, Apart, Ran-ordered}

abbrev two_slots : Queue ℕ
two_slots = record { slots = 0 ∷ 0 ∷ 0 ∷ []; head = 0; tail = 0 }

make-two_slots : make_queue 0 2 ≡ some two_slots
unfolding make_queue
make-two_slots = refl

make-nothing : make_queue {A = ℕ} 0 0 ≡ none
unfolding make_queue
make-nothing = refl

abbrev round : List (Op ℕ)
round = push 1 ∷ push 2 ∷ push 3 ∷ pop ∷ push 4 ∷ pop ∷ pop ∷ pop ∷ []

abbrev told : List (Answer ℕ)
told =
    pushed true
    ∷ pushed true
    ∷ pushed false
    ∷ popped (some 1)
    ∷ pushed true
    ∷ popped (some 2)
    ∷ popped (some 4)
    ∷ popped none
    ∷ []

calls-round : Option.map (λ r. r.0) (calls round two_slots) ≡ some told
unfolding calls call try_push try_pop
calls-round = refl

calls-fifo_calls_example :
    Option.map (λ r. r.0) (calls round two_slots) ≡ some (fifo_calls 2 round []).0
calls-fifo_calls_example = calls-fifo_calls 0 2 round make-two_slots

-- 5 was pushed, 6 is about to be written, and the consumer is about to read 5
abbrev busy : Threads ℕ
busy = record {
  queue = record { slots = 5 ∷ 0 ∷ 0 ∷ []; head = 1; tail = 0 };
  producer = writing 6 1 2;
  consumer = reading 0;
  sent = 5 ∷ [];
  received = [];
}

busy-Ran : Ran 0 2 busy
unfolding take_turn begin_push push_on begin_pop
busy-Ran =
    turned _ busy pop_turn
      (turned _ _ (push_turn 6)
        (turned _ _ producer_turn
          (turned _ _ producer_turn
            (turned (begun two_slots) _ (push_turn 5) (made two_slots make-two_slots) refl) refl)
          refl)
        refl)
      refl

Ran-ordered_example :
    ((a : ThreadTurn ℕ) → take_turn a busy ≢ fault)
    × Apart busy.producer busy.consumer
    × ((waiting : List ℕ) × (busy.sent ≡ busy.received ++ waiting) × (length waiting ≤ 2))
Ran-ordered_example = Ran-ordered busy-Ran
