-- ===== src/Queue/Refine.antt =====
-- The ring is the bounded first-in first-out list that it promises to be.
use mathlib.Core.Path.{subst}
use mathlib.Core.Option
use elephant_shrew.Prelude.{
  ℕ, zero, suc, ◌+◌, ◌-◌, ◌^◌, ◌≤◌, ◌<◌, ◌≡◌, refl, ◌≢◌, ◌∙◌, sym, true, false, ◌||◌, List, [], ◌∷◌,
  ◌++◌, none, some, arith, inl, inr, length, length-append, length-set, length-replicate, get_elem?,
  get_elem?-set_self, get_elem?-set_ne, set, ltb, ◌==◌, if◌then◌else◌, Bool-cases, some_inj, lt→ltb,
  ==_iff,
}
use elephant_shrew.Queue.{
  Queue, next_slot, make_queue, try_push, try_pop, Op, push, pop, call, calls,
}
use elephant_shrew.Queue.Fifo.{fifo_call, fifo_calls}

-- an index that has gone round at most once
abbrev pub wrap : ℕ → ℕ → ℕ
wrap size i = if ltb i size then i else i - size

ne→false : {a b : ℕ} → a ≢ b → (a == b) ≡ false
ne→false h = ground arith

module _ {A : Type 0} where
  -- The slots from `tail` up to `head`, going round, hold `xs`; one slot stays free.
  pub record Holds (q : Queue A) (capacity : ℕ) (xs : List A) : Type 0 where
    pub size : length q.slots ≡ capacity + 1
    pub positive : 0 < capacity
    pub tail_in : q.tail < capacity + 1
    pub room : length xs ≤ capacity
    pub head_at : q.head ≡ wrap (capacity + 1) (q.tail + length xs)
    pub slot :
        (k : ℕ)
        → k < length xs
        → get_elem? q.slots (wrap (capacity + 1) (q.tail + k)) ≡ get_elem? xs k

  pub get_elem?-append_left :
      (xs ys : List A) (k : ℕ) → k < length xs → get_elem? (xs ++ ys) k ≡ get_elem? xs k
  get_elem?-append_left [] ys k h = absurd (omega arith)
  get_elem?-append_left (x ∷ xs) ys zero h = refl
  get_elem?-append_left (x ∷ xs) ys (suc k) h = get_elem?-append_left xs ys k (omega arith)

  pub get_elem?-append_last : (xs : List A) (v : A) → get_elem? (xs ++ v ∷ []) (length xs) ≡ some v
  get_elem?-append_last [] v = refl
  get_elem?-append_last (x ∷ xs) v = get_elem?-append_last xs v

  pub make_queue-Holds :
      (fill : A) (capacity : ℕ) {q : Queue A}
      → make_queue fill capacity ≡ some q
      → Holds q capacity []
  unfolding make_queue
  make_queue-Holds fill capacity e = elim (Bool-cases (capacity == 0 || capacity == 2 ^ 64 - 1)) [
    | inl p ↦ absurd (none-some (rw (p, make_queue) at e))
    | inr p ↦
        subst (λ (x : Queue A). Holds x capacity []) (some_inj (rw (p, make_queue) at e))
          (record {
            size = length-replicate (capacity + 1) fill;
            positive = ground arith;
            tail_in = omega arith;
            room = omega arith;
            head_at = ground arith;
            slot = λ k kl. absurd (omega arith);
          })
  ]
    where
      none-some : {q : Queue A} → none ≡ some q → ⊥
      none-some h = cc

  -- after a push that fits, and after a pop of a value
  abbrev grown : Queue A → A → Queue A
  grown q v = record q { slots = set q.slots q.head v; head = next_slot q.slots q.head }

  abbrev pub shrunk : Queue A → Queue A
  shrunk q = record q { tail = next_slot q.slots q.tail }

  module _ {capacity : ℕ} (q : Queue A) where
    room_left :
        (xs : List A)
        → Holds q capacity xs
        → length xs < capacity
        → next_slot q.slots q.head ≢ q.tail
    room_left xs h lt e = ground arith

    pub no_room :
        (xs : List A)
        → Holds q capacity xs
        → length xs ≡ capacity
        → next_slot q.slots q.head ≡ q.tail
    no_room xs h e = ground arith

    pub head_in : (xs : List A) → Holds q capacity xs → q.head < length q.slots
    head_in xs h = ground arith

    grown-Holds :
        (xs : List A) (v : A)
        → Holds q capacity xs
        → length xs < capacity
        → Holds (grown q v) capacity (xs ++ v ∷ [])
    grown-Holds xs v h lt =
        let n = length-append xs (v ∷ []) in
        let size = length-set q.slots q.head v in
        record {
          size = omega (arith, size, h.size);
          positive = h.positive;
          tail_in = h.tail_in;
          room = omega arith;
          head_at = rw n (ground arith);
          slot = λ k kl. elim (Bool-cases (ltb k (length xs))) [
            | inl p ↦
                get_elem?-set_ne q.slots {i = q.head} {j = wrap (capacity + 1) (q.tail + k)} v
                  (λ e. ground arith)
                ∙ (h.slot k (ground arith)
                    ∙ sym (get_elem?-append_left xs (v ∷ []) k (ground arith)))
            | inr p ↦
                (let e : k ≡ length xs = ground arith in
                  rw (e, sym h.head_at, get_elem?-append_last xs v)
                    (get_elem?-set_self q.slots q.head v (head_in xs h)))
          ];
        }

    pub shrunk-Holds :
        (x : A) (xs : List A) → Holds q capacity (x ∷ xs) → Holds (shrunk q) capacity xs
    shrunk-Holds x xs h = record {
      size = h.size;
      positive = h.positive;
      tail_in = ground arith;
      room = omega arith;
      head_at = ground arith;
      slot = λ k kl.
          let e : wrap (capacity + 1) (next_slot q.slots q.tail + k)
              ≡ wrap (capacity + 1) (q.tail + suc k) =
            ground arith in
          rw e (h.slot (suc k) (omega arith));
    }

    -- A push is taken exactly while there is room, and goes to the end; it never writes outside.
    pub try_push-Holds :
        (v : A) (xs : List A)
        → Holds q capacity xs
        → (q' : Queue A) × (try_push v q ≡ some (ltb (length xs) capacity, q'))
          × Holds q' capacity (if ltb (length xs) capacity then xs ++ v ∷ [] else xs)
    unfolding try_push
    try_push-Holds v xs h = elim (Bool-cases (ltb (length xs) capacity)) [
      | inl p ↦
          let free : (next_slot q.slots q.head == q.tail) ≡ false =
            ne→false (room_left xs h (ground arith)) in
          let within : ltb q.head (length q.slots) ≡ true = lt→ltb _ _ (head_in xs h) in
          (grown q v, rw (p, try_push, free, within), rw p (grown-Holds xs v h (ground arith)))
      | inr p ↦
          let full : (next_slot q.slots q.head == q.tail) ≡ true =
            (==_iff _ _).1 (no_room xs h (ground (arith, h.room))) in
          (q, rw (p, try_push, full), rw p h)
    ]

    -- A pop of a queue with values gives the first; it never reads outside.
    pub try_pop-Holds :
        (x : A) (xs : List A)
        → Holds q capacity (x ∷ xs)
        → (try_pop q ≡ some (some x, shrunk q)) × Holds (shrunk q) capacity xs
    unfolding try_pop
    try_pop-Holds x xs h =
        let filled : (q.tail == q.head) ≡ false = ground (arith, h.head_at, h.tail_in, h.room) in
        let first : get_elem? q.slots q.tail ≡ some x =
          let e : wrap (capacity + 1) (q.tail + 0) ≡ q.tail = ground (arith, h.tail_in) in
          subst (λ (i : ℕ). get_elem? q.slots i ≡ some x) e (h.slot 0 (omega arith)) in
        (rw (filled, try_pop, first), shrunk-Holds x xs h)

    pub try_pop_of_empty : Holds q capacity [] → try_pop q ≡ some (none, q)
    unfolding try_pop
    try_pop_of_empty h =
        let empty : (q.tail == q.head) ≡ true = ground (arith, h.head_at, h.tail_in) in
        rw (empty, try_pop)

  -- one call of either kind
  call-Holds :
      {capacity : ℕ} (op : Op A) (q : Queue A) (xs : List A)
      → Holds q capacity xs
      → let (a, xs') = fifo_call capacity op xs in
        (q' : Queue A) × (call op q ≡ some (a, q')) × Holds q' capacity xs'
  unfolding call
  call-Holds {capacity} (push v) q xs h =
      let (q', e, k) = try_push-Holds q v xs h in
      elim (Bool-cases (ltb (length xs) capacity)) [
        | inl p ↦ (q', rw (call, e, p), rw p (rw p at k))
        | inr p ↦ (q', rw (call, e, p), rw p (rw p at k))
      ]
  call-Holds pop q [] h = (q, rw (call, try_pop_of_empty q h), h)
  call-Holds pop q (x ∷ xs) h = let (e, k) = try_pop-Holds q x xs h in (shrunk q, rw (call, e), k)

  calls-Holds :
      {capacity : ℕ} (ops : List (Op A)) (q : Queue A) (xs : List A)
      → Holds q capacity xs
      → let (answers, xs') = fifo_calls capacity ops xs in
        (q' : Queue A) × (calls ops q ≡ some (answers, q')) × Holds q' capacity xs'
  unfolding calls
  calls-Holds [] q xs h = (q, refl, h)
  calls-Holds {capacity} (op ∷ ops) q xs h =
      let (q', e, k) = call-Holds op q xs h in
      let (q'', e', k') = calls-Holds ops q' (fifo_call capacity op xs).1 k in
      (q'', rw (calls, e, e'), k')

  -- Whatever series of pushes and pops is called on a new ring, the answers are those of a
  -- first-in first-out list of at most `capacity` values, and no call reads or writes outside of
  -- the slots. Premise: the constructor did not throw.
  pub calls-fifo_calls :
      (fill : A) (capacity : ℕ) (ops : List (Op A)) {q : Queue A}
      → make_queue fill capacity ≡ some q
      → Option.map (λ r. r.0) (calls ops q) ≡ some (fifo_calls capacity ops []).0
  calls-fifo_calls fill capacity ops {q} e =
      let (q', e', _) = calls-Holds ops q [] (make_queue-Holds fill capacity e) in rw e'
