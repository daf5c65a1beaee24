-- ===== src/Queue/Threads.antt =====
-- The ring under two threads.
use mathlib.Core.Path.{subst}
use mathlib.Core.List.{append_assoc}
use elephant_shrew.Prelude.{
  ℕ, ◌+◌, ◌≤◌, ◌<◌, ◌≡◌, refl, ◌≢◌, ◌∙◌, sym, ap, Bool, true, false, List, [], ◌∷◌, ◌++◌, Option,
  none, some, arith, inl, inr, length, length-append, length-set, get_elem?, get_elem?-set_self,
  get_elem?-set_ne, set, ltb, ◌==◌, if◌then◌else◌, Bool-cases, lt→ltb, ==_iff,
}
use elephant_shrew.Queue.{Queue, next_slot, make_queue}
use elephant_shrew.Queue.Refine.{
  wrap, Holds, make_queue-Holds, shrunk-Holds, no_room, head_in, get_elem?-append_left,
  get_elem?-append_last,
}
use elephant_shrew.Queue.Steps.{
  Producer, outside, writing, publishing, Consumer, away, reading, releasing, Threads, ThreadTurn,
  push_turn, producer_turn, pop_turn, consumer_turn, Taken, refused, fault, next, begin_push,
  push_on, begin_pop, pop_on, begin_push_if, begin_pop_if, take_turn,
}

true-false : true ≡ false → ⊥
true-false h = cc

module _ {A : Type 0} where
  module _ {capacity : ℕ} (q : Queue A) (xs : List A) (h : Holds q capacity xs) where
    -- a write of the free slot
    written-Holds :
        (v : A)
        → length xs < capacity
        → Holds (record q { slots = set q.slots q.head v }) capacity xs
    written-Holds v lt =
        let size = length-set q.slots q.head v in
        record {
          size = omega (arith, size, h.size);
          positive = h.positive;
          tail_in = h.tail_in;
          room = h.room;
          head_at = h.head_at;
          slot = λ k kl.
              get_elem?-set_ne q.slots {i = q.head} {j = wrap (capacity + 1) (q.tail + k)} v
                (λ e. ground arith)
              ∙ h.slot k kl;
        }

    -- a store of the head past a slot that was written
    published-Holds :
        (v : A)
        → length xs < capacity
        → get_elem? q.slots q.head ≡ some v
        → Holds (record q { head = next_slot q.slots q.head }) capacity (xs ++ v ∷ [])
    published-Holds v lt w =
        let n = length-append xs (v ∷ []) in
        record {
          size = h.size;
          positive = h.positive;
          tail_in = h.tail_in;
          room = omega arith;
          head_at = rw n (ground arith);
          slot = λ k kl. elim (Bool-cases (ltb k (length xs))) [
            | inl p ↦
                h.slot k (ground arith) ∙ sym (get_elem?-append_left xs (v ∷ []) k (ground arith))
            | inr p ↦
                (let e : k ≡ length xs = ground arith in
                  rw (e, sym h.head_at, get_elem?-append_last xs v) w)
          ];
        }

    -- what the tests of the two threads tell
    has_room : (next_slot q.slots q.head == q.tail) ≡ false → length xs < capacity
    has_room e = elim (Bool-cases (ltb (length xs) capacity)) [
      | inl p ↦ ground arith
      | inr p ↦
          absurd (true-false (sym ((==_iff _ _).1 (no_room q xs h (ground (arith, h.room)))) ∙ e))
    ]

    has_value : (q.tail == q.head) ≡ false → (x : A) × (rest : List A) × (xs ≡ x ∷ rest)
    has_value e = go xs h
      where
        go : (xs : List A) → Holds q capacity xs → (x : A) × (rest : List A) × (xs ≡ x ∷ rest)
        go [] h = absurd (true-false (sym (ground (arith, h.head_at, h.tail_in)) ∙ e))
        go (x ∷ rest) h = (x, rest, refl)

    first_slot : {x : A} {rest : List A} → xs ≡ x ∷ rest → get_elem? q.slots q.tail ≡ some x
    first_slot {x} e =
        let at : wrap (capacity + 1) (q.tail + 0) ≡ q.tail = ground (arith, h.tail_in) in
        subst (λ (i : ℕ). get_elem? q.slots i ≡ some x) at
          (h.slot 0 (rw e (omega arith)) ∙ ap (λ (l : List A). get_elem? l 0) e)

    apart : {x : A} {rest : List A} → xs ≡ x ∷ rest → length xs < capacity → q.head ≢ q.tail
    apart e lt d = let n = ap length e in ground (arith, h.head_at, h.tail_in)

  -- what each thread knows where it stands
  abbrev pub Pushes : Queue A → ℕ → List A → Producer A → Type 0
  Pushes q capacity xs outside = Unit {0}
  Pushes q capacity xs (writing v head n) =
      (head ≡ q.head) × (n ≡ next_slot q.slots q.head) × (length xs < capacity)
  Pushes q capacity xs (publishing v n) =
      (n ≡ next_slot q.slots q.head) × (length xs < capacity) × (get_elem? q.slots q.head ≡ some v)

  abbrev pub Pops : Queue A → List A → Consumer A → Type 0
  Pops q xs away = Unit {0}
  Pops q xs (reading tail) = (tail ≡ q.tail) × ((x : A) × (rest : List A) × (xs ≡ x ∷ rest))
  Pops q xs (releasing tail x) = (tail ≡ q.tail) × ((rest : List A) × (xs ≡ x ∷ rest))

  record IsFifo (capacity : ℕ) (t : Threads A) : Type 0 where
    waiting : List A
    holds : Holds t.queue capacity waiting
    pushes : Pushes t.queue capacity waiting t.producer
    pops : Pops t.queue waiting t.consumer
    ordered : t.sent ≡ t.received ++ waiting

  refused-next : {t : Threads A} → refused ≡ next t → ⊥
  refused-next h = cc

  fault-next : {t : Threads A} → fault ≡ next t → ⊥
  fault-next h = cc

  next-fault : {t : Threads A} → next t ≡ fault → ⊥
  next-fault h = cc

  refused-fault : ◌≡◌ {A = Taken A} refused fault → ⊥
  refused-fault h = cc

  next_inj : {t u : Threads A} → next t ≡ next u → t ≡ u
  next_inj h = cc

  -- A turn that is not a fault: it is refused, or the state after it is in order again.
  data Goes (capacity : ℕ) : Taken A → Type 0 where
    stays : Goes capacity refused
    goes : (t : Threads A) → IsFifo capacity t → Goes capacity (next t)

  module _ {capacity : ℕ} {t : Threads A} (v : IsFifo capacity t) where
    begin_push-Goes : (x : A) → t.producer ≡ outside → Goes capacity (begin_push x t)
    unfolding begin_push
    begin_push-Goes x e = go (next_slot t.queue.slots t.queue.head == t.queue.tail) refl
      where
        go :
            (b : Bool)
            → (next_slot t.queue.slots t.queue.head == t.queue.tail) ≡ b
            → Goes capacity (
                if b
                then next t
                else next (record t {
                  producer = writing x t.queue.head (next_slot t.queue.slots t.queue.head);
                }))
        go true f = goes t v
        go false f = goes _ (record {
          waiting = v.waiting;
          holds = v.holds;
          pushes = (refl, refl, has_room t.queue v.waiting v.holds f);
          pops = v.pops;
          ordered = v.ordered;
        })

    begin_pop-Goes : t.consumer ≡ away → Goes capacity (begin_pop t)
    unfolding begin_pop
    begin_pop-Goes e = go (t.queue.tail == t.queue.head) refl
      where
        go :
            (b : Bool)
            → (t.queue.tail == t.queue.head) ≡ b
            → Goes capacity
                (if b then next t else next (record t { consumer = reading t.queue.tail }))
        go true f = goes t v
        go false f = goes _ (record {
          waiting = v.waiting;
          holds = v.holds;
          pushes = v.pushes;
          pops = (refl, has_value t.queue v.waiting v.holds f);
          ordered = v.ordered;
        })

    -- the consumer knows as much after a push
    longer-Pops :
        (c : Consumer A) (q : Queue A) (x : A)
        → q.tail ≡ t.queue.tail
        → Pops t.queue v.waiting c
        → Pops q (v.waiting ++ x ∷ []) c
    longer-Pops away q x e k = tt
    longer-Pops (reading tail) q x e (f, (y, rest, g)) =
        (f ∙ sym e, (y, rest ++ x ∷ [], ap (λ l. l ++ x ∷ []) g))
    longer-Pops (releasing tail y) q x e (f, (rest, g)) =
        (f ∙ sym e, (rest ++ x ∷ [], ap (λ l. l ++ x ∷ []) g))

    same-Pops :
        (c : Consumer A) (q : Queue A)
        → q.tail ≡ t.queue.tail
        → Pops t.queue v.waiting c
        → Pops q v.waiting c
    same-Pops away q e k = tt
    same-Pops (reading tail) q e (f, k) = (f ∙ sym e, k)
    same-Pops (releasing tail y) q e (f, k) = (f ∙ sym e, k)

    -- and the producer after a pop
    shorter-Pushes :
        (p : Producer A) (m : ℕ) (rest : List A)
        → length rest ≤ length v.waiting
        → Pushes t.queue capacity v.waiting p
        → Pushes (record t.queue { tail = m }) capacity rest p
    shorter-Pushes outside m rest l k = tt
    shorter-Pushes (writing x head n) m rest l (e, f, k) = (e, f, omega arith)
    shorter-Pushes (publishing x n) m rest l (f, k, w) = (f, omega arith, w)

    push_on-Goes :
        (p : Producer A) → Pushes t.queue capacity v.waiting p → Goes capacity (push_on p t)
    unfolding push_on
    push_on-Goes outside k = stays
    push_on-Goes (writing x head n) (e, f, lt) = go (ltb head (length t.queue.slots)) refl
      where
        within : head < length t.queue.slots
        within =
            subst (λ (m : ℕ). m < length t.queue.slots) (sym e) (head_in t.queue v.waiting v.holds)

        go :
            (b : Bool)
            → ltb head (length t.queue.slots) ≡ b
            → Goes capacity (
                if b
                then next (record t {
                  queue = record t.queue { slots = set t.queue.slots head x };
                  producer = publishing x n;
                })
                else fault)
        go false g = absurd (true-false (sym (lt→ltb _ _ within) ∙ g))
        go true g = goes _ (record {
          waiting = v.waiting;
          holds =
              subst
                (λ (m : ℕ).
                  Holds (record t.queue { slots = set t.queue.slots m x }) capacity v.waiting)
                (sym e) (written-Holds t.queue v.waiting v.holds x lt);
          pushes = (
            f
                ∙ ap (λ (m : ℕ). if t.queue.head + 1 == m then 0 else t.queue.head + 1)
                    (sym (length-set t.queue.slots head x)),
            lt,
            subst (λ (m : ℕ). get_elem? (set t.queue.slots m x) t.queue.head ≡ some x) (sym e)
                (get_elem?-set_self t.queue.slots t.queue.head x
                  (head_in t.queue v.waiting v.holds)),
          );
          pops =
              same-Pops t.consumer (record t.queue { slots = set t.queue.slots head x }) refl
                v.pops;
          ordered = v.ordered;
        })
    push_on-Goes (publishing x n) (f, lt, w) = goes _ (record {
      waiting = v.waiting ++ x ∷ [];
      holds =
          subst (λ (m : ℕ). Holds (record t.queue { head = m }) capacity (v.waiting ++ x ∷ []))
            (sym f) (published-Holds t.queue v.waiting v.holds x lt w);
      pushes = tt;
      pops = longer-Pops t.consumer (record t.queue { head = n }) x refl v.pops;
      ordered = ap (λ l. l ++ x ∷ []) v.ordered ∙ append_assoc t.received v.waiting (x ∷ []);
    })

    pop_on-Goes : (c : Consumer A) → Pops t.queue v.waiting c → Goes capacity (pop_on c t)
    unfolding pop_on
    pop_on-Goes away k = stays
    pop_on-Goes (reading tail) (e, (x, rest, f)) =
        subst
          (λ (o : Option A). Goes capacity (elim o [
            | none ↦ fault
            | some value ↦ next (record t { consumer = releasing tail value })
          ]))
          (sym (ap (get_elem? t.queue.slots) e ∙ first_slot t.queue v.waiting v.holds f))
          (goes _ (record {
            waiting = v.waiting;
            holds = v.holds;
            pushes = v.pushes;
            pops = (e, (rest, f));
            ordered = v.ordered;
          }))
    pop_on-Goes (releasing tail x) (e, (rest, f)) = goes _ (record {
      waiting = rest;
      holds =
          subst
            (λ (m : ℕ). Holds (record t.queue { tail = next_slot t.queue.slots m }) capacity rest)
            (sym e) (shrunk-Holds t.queue x rest (subst (Holds t.queue capacity) f v.holds));
      pushes =
          shorter-Pushes t.producer (next_slot t.queue.slots tail) rest
            (let n = ap length f in omega arith) v.pushes;
      pops = tt;
      ordered =
          v.ordered ∙ (ap (λ l. t.received ++ l) f ∙ sym (append_assoc t.received (x ∷ []) rest));
    })

    take_turn-Goes : (a : ThreadTurn A) → Goes capacity (take_turn a t)
    unfolding take_turn
    take_turn-Goes (push_turn x) = go t.producer refl
      where
        go : (p : Producer A) → t.producer ≡ p → Goes capacity (begin_push_if x p t)
        go outside e = begin_push-Goes x e
        go (writing y h n) e = stays
        go (publishing y n) e = stays
    take_turn-Goes producer_turn = push_on-Goes t.producer v.pushes
    take_turn-Goes pop_turn = go t.consumer refl
      where
        go : (c : Consumer A) → t.consumer ≡ c → Goes capacity (begin_pop_if c t)
        go away e = begin_pop-Goes e
        go (reading y) e = stays
        go (releasing y x) e = stays
    take_turn-Goes consumer_turn = pop_on-Goes t.consumer v.pops

  Goes-IsFifo :
      {capacity : ℕ} {o : Taken A} {t : Threads A}
      → Goes capacity o
      → o ≡ next t
      → IsFifo capacity t
  Goes-IsFifo stays e = absurd (refused-next e)
  Goes-IsFifo {capacity} (goes u v) e = subst (IsFifo capacity) (next_inj e) v

  Goes_defined : {capacity : ℕ} {o : Taken A} → Goes capacity o → o ≢ fault
  Goes_defined stays e = refused-fault e
  Goes_defined (goes u v) e = next-fault e

  abbrev pub begun : Queue A → Threads A
  begun q = record { queue = q; producer = outside; consumer = away; sent = []; received = [] }

  -- the turns of the two threads on a new ring
  pub data Ran (fill : A) (capacity : ℕ) : Threads A → Type 0 where
    made : (q : Queue A) → make_queue fill capacity ≡ some q → Ran fill capacity (begun q)
    turned :
        (t u : Threads A) (a : ThreadTurn A)
        → Ran fill capacity t
        → take_turn a t ≡ next u
        → Ran fill capacity u

  Ran-IsFifo : {fill : A} {capacity : ℕ} {t : Threads A} → Ran fill capacity t → IsFifo capacity t
  Ran-IsFifo {fill} {capacity} (made q e) = record {
    waiting = [];
    holds = make_queue-Holds fill capacity e;
    pushes = tt;
    pops = tt;
    ordered = refl;
  }
  Ran-IsFifo (turned t u a r e) = Goes-IsFifo (take_turn-Goes (Ran-IsFifo r) a) e

  abbrev pub Apart : Producer A → Consumer A → Type 0
  Apart (writing x head n) (reading tail) = head ≢ tail
  Apart p c = Unit {0}

  -- However the two threads interleave on a new ring: no turn reads or writes outside of the slots, the slot that
  -- the producer is to write is not the one that the consumer is to read, and the values received,
  -- followed by at most `capacity` that wait, are the values sent, in order.
  pub Ran-ordered :
      {fill : A} {capacity : ℕ} {t : Threads A}
      → Ran fill capacity t
      → ((a : ThreadTurn A) → take_turn a t ≢ fault)
        × Apart t.producer t.consumer
        × ((waiting : List A) × (t.sent ≡ t.received ++ waiting) × (length waiting ≤ capacity))
  Ran-ordered {capacity = capacity} {t = t} r =
      let v = Ran-IsFifo r in
      (
        (λ a. Goes_defined (take_turn-Goes v a)),
        two v t.producer t.consumer v.pushes v.pops,
        (v.waiting, v.ordered, v.holds.room),
      )
    where
      two :
          (v : IsFifo capacity t) (p : Producer A) (c : Consumer A)
          → Pushes t.queue capacity v.waiting p
          → Pops t.queue v.waiting c
          → Apart p c
      two v outside c k l = tt
      two v (publishing x n) c k l = tt
      two v (writing x head n) away k l = tt
      two v (writing x head n) (releasing tail y) k l = tt
      two v (writing x head n) (reading tail) (e, f, lt) (g, (y, rest, o)) =
          λ d. apart t.queue v.waiting v.holds o lt (sym e ∙ d ∙ g)
