-- ===== src/Queue/Steps.antt =====
-- inc/SpscQueue.hpp: the operations as one producer and one consumer interleave them. A step makes one access to
-- what the threads share; an acquiring load sees all that came before the release it reads from, so
-- the accesses have one order.
use elephant_shrew.Prelude.{
  ℕ, List, [], ◌∷◌, ◌++◌, none, some, length, get_elem?, set, ltb, ◌==◌, if◌then◌else◌,
}
use elephant_shrew.Queue.{Queue, next_slot}

-- where the producer is in `TryPush`: outside, before the write of the slot, before the store of `head_`
pub data Producer (A : Type 0) : Type 0 where
  outside : Producer A
  writing : (value : A) (head next : ℕ) → Producer A
  publishing : (value : A) (next : ℕ) → Producer A

-- where the consumer is in `TryPop`: outside, before the read of the slot, before the store of `tail_`
pub data Consumer (A : Type 0) : Type 0 where
  away : Consumer A
  reading : (tail : ℕ) → Consumer A
  releasing : (tail : ℕ) (value : A) → Consumer A

-- `sent` and `received` are the values of the calls that returned true, in order
pub record Threads (A : Type 0) : Type 0 where
  pub queue : Queue A
  pub producer : Producer A
  pub consumer : Consumer A
  pub sent : List A
  pub received : List A

pub data ThreadTurn (A : Type 0) : Type 0 where
  push_turn : A → ThreadTurn A
  producer_turn pop_turn consumer_turn : ThreadTurn A

-- a turn that is not there to take, an access outside of the slots, or the state after it
pub data Taken (A : Type 0) : Type 0 where
  refused fault : Taken A
  next : Threads A → Taken A

module _ {A : Type 0} where
  -- the loads and the test of `TryPush`
  unfoldable pub begin_push : A → Threads A → Taken A
  begin_push value t =
      let n = next_slot t.queue.slots t.queue.head in
      if n == t.queue.tail
      then next t
      else next (record t { producer = writing value t.queue.head n })

  -- the rest of `TryPush`
  unfoldable pub push_on : Producer A → Threads A → Taken A
  push_on outside t = refused
  push_on (writing value head n) t =
      if ltb head (length t.queue.slots)
      then next (record t {
        queue = record t.queue { slots = set t.queue.slots head value };
        producer = publishing value n;
      })
      else fault
  push_on (publishing value n) t = next (record t {
    queue = record t.queue { head = n };
    producer = outside;
    sent = t.sent ++ value ∷ [];
  })

  -- the loads and the test of `TryPop`
  unfoldable pub begin_pop : Threads A → Taken A
  begin_pop t =
      if t.queue.tail == t.queue.head
      then next t
      else next (record t { consumer = reading t.queue.tail })

  -- the rest of `TryPop`
  unfoldable pub pop_on : Consumer A → Threads A → Taken A
  pop_on away t = refused
  pop_on (reading tail) t = elim (get_elem? t.queue.slots tail) [
    | none ↦ fault
    | some value ↦ next (record t { consumer = releasing tail value })
  ]
  pop_on (releasing tail value) t = next (record t {
    queue = record t.queue { tail = next_slot t.queue.slots tail };
    consumer = away;
    received = t.received ++ value ∷ [];
  })

  abbrev pub begin_push_if : A → Producer A → Threads A → Taken A
  begin_push_if value outside t = begin_push value t
  begin_push_if value p t = refused

  abbrev pub begin_pop_if : Consumer A → Threads A → Taken A
  begin_pop_if away t = begin_pop t
  begin_pop_if c t = refused

  unfoldable pub take_turn : ThreadTurn A → Threads A → Taken A
  take_turn (push_turn value) t = begin_push_if value t.producer t
  take_turn producer_turn t = push_on t.producer t
  take_turn pop_turn t = begin_pop_if t.consumer t
  take_turn consumer_turn t = pop_on t.consumer t
