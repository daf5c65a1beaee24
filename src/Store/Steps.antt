-- ===== src/Store/Steps.antt =====
-- The capture threads, the io thread and the destructor, an action at a time.
use mathlib.Core.Path.{subst}
use elephant_shrew.Prelude.{
  ℕ, ◌+◌, ◌≤◌, ◌<◌, ◌⊎◌, sym, ◌∙◌, some_inj, ltb→lt, ◌≡◌, ap, Bool, true, false, List, [], ◌∷◌,
  ◌++◌, Option, none, some, arith, inl, inr, length, length-append, ltb, Bool-cases,
}
use elephant_shrew.Config.{Text}
use elephant_shrew.Store.{
  PacketInfo, PacketStore, empty_store, reserve_slot, complete_write, begin_store, post_packet,
  run_posted, finish_write, stop_accepting,
}

-- A life of the store: the packets that were posted, in order, and the state then. Which thread moves,
-- and whether a post or a request fails, is left open.
pub data Ran (max : ℕ) (stream_key : Text) : List PacketInfo → PacketStore → Type 0 where
  made : {s : PacketStore} → s ≡ empty_store → Ran max stream_key [] s
  begun :
      {h : List PacketInfo} {s : PacketStore}
      → Ran max stream_key h s
      → (p : PacketInfo) (taken : Bool) {s' : PacketStore} → begin_store max p s ≡ some (taken, s')
      → Ran max stream_key h s'
  posted :
      {h : List PacketInfo} {s : PacketStore}
      → Ran max stream_key h s
      → (p : PacketInfo) (before after : List PacketInfo) → s.reserved ≡ before ++ (p ∷ after)
      → Ran max stream_key (h ++ p ∷ []) (post_packet false p (before ++ after) s)
  unposted :
      {h : List PacketInfo} {s : PacketStore}
      → Ran max stream_key h s
      → (p : PacketInfo) (before after : List PacketInfo) → s.reserved ≡ before ++ (p ∷ after)
      → Ran max stream_key h (post_packet true p (before ++ after) s)
  handled :
      {h : List PacketInfo} {s : PacketStore}
      → Ran max stream_key h s
      → (throws : Bool) (p : PacketInfo) (others : List PacketInfo) → s.posted ≡ p ∷ others
      → Ran max stream_key h (run_posted throws stream_key p others s)
  answered :
      {h : List PacketInfo} {s : PacketStore}
      → Ran max stream_key h s
      → (p : PacketInfo) (before after : List PacketInfo) → s.executing ≡ before ++ (p ∷ after)
      → Ran max stream_key h (finish_write (before ++ after) s)
  stopped :
      {h : List PacketInfo} {s : PacketStore}
      → Ran max stream_key h s
      → Ran max stream_key h (stop_accepting s)

-- Each reserved slot belongs to one packet on its way, and no more than `max` are reserved.
pub record IsCounted (max : ℕ) (s : PacketStore) : Type 0 where
  pub counted : s.pending_writes ≡ length s.reserved + length s.posted + length s.executing
  pub bounded : s.pending_writes ≤ max

pub length-split :
    (p : PacketInfo) (before after : List PacketInfo)
    → length (before ++ (p ∷ after)) ≡ length (before ++ after) + 1
length-split p before after =
    omega (arith, length-append before (p ∷ after), length-append before after)

-- what a reservation does: it waits, it is refused, or it takes one more slot
pub begin_store_cases :
    (max : ℕ) (p : PacketInfo) (s : PacketStore)
    → (begin_store max p s ≡ none)
      ⊎ (((s.accepting_writes ≡ false) × (begin_store max p s ≡ some (false, s)))
          ⊎ ((s.pending_writes < max)
              × (begin_store max p s
                  ≡ some (
                    true,
                    record s { pending_writes = s.pending_writes + 1; reserved = p ∷ s.reserved },
                  ))))
unfolding begin_store reserve_slot
begin_store_cases max p s = elim (Bool-cases s.accepting_writes) [
  | inl a ↦ elim (Bool-cases (ltb s.pending_writes max)) [
    | inl b ↦ inr (inr (ltb→lt s.pending_writes max b, ground arith))
    | inr b ↦ inl (ground arith)
  ]
  | inr a ↦ elim (Bool-cases (ltb s.pending_writes max)) [
    | inl b ↦ inr (inl (a, ground arith))
    | inr b ↦ inr (inl (a, ground arith))
  ]
]

pub none-some : {A : Type 0} {a : A} → none ≡ some a → ⊥
none-some h = cc

pub given :
    {taken taken' : Bool} {s s' : PacketStore}
    → ◌≡◌ {A = Option (Bool × PacketStore)} (some (taken, s)) (some (taken', s'))
    → s ≡ s'
given e = ap (λ (r : Bool × PacketStore). r.1) (some_inj e)

module _ {max : ℕ} {s : PacketStore} (v : IsCounted max s) where
  begin_store-IsCounted :
      (p : PacketInfo) {taken : Bool} {s' : PacketStore}
      → begin_store max p s ≡ some (taken, s')
      → IsCounted max s'
  unfolding begin_store reserve_slot
  begin_store-IsCounted p {s' = s'} e = elim (begin_store_cases max p s) [
    | inl w ↦ absurd (none-some (sym w ∙ e))
    | inr (inl (f, w)) ↦ subst (IsCounted max) (given (sym w ∙ e)) v
    | inr (inr (f, w)) ↦ subst (IsCounted max) (given (sym w ∙ e)) (ground arith)
  ]

  post_packet-IsCounted :
      (throws : Bool) (p : PacketInfo) (before after : List PacketInfo)
      → s.reserved ≡ before ++ (p ∷ after)
      → IsCounted max (post_packet throws p (before ++ after) s)
  unfolding post_packet complete_write
  post_packet-IsCounted true p before after e =
      let l = length-split p before after in let k = ap length e in ground arith
  post_packet-IsCounted false p before after e =
      let l = length-split p before after in
      let k = ap length e in ground (arith, length-append s.posted (p ∷ []))

  run_posted-IsCounted :
      (throws : Bool) (stream_key : Text) (p : PacketInfo) (others : List PacketInfo)
      → s.posted ≡ p ∷ others
      → IsCounted max (run_posted throws stream_key p others s)
  unfolding run_posted complete_write
  run_posted-IsCounted true stream_key p others e = let k = ap length e in ground arith
  run_posted-IsCounted false stream_key p others e =
      let k = ap length e in ground (arith, length-append s.executing (p ∷ []))

  finish_write-IsCounted :
      (p : PacketInfo) (before after : List PacketInfo)
      → s.executing ≡ before ++ (p ∷ after)
      → IsCounted max (finish_write (before ++ after) s)
  unfolding finish_write complete_write
  finish_write-IsCounted p before after e =
      let l = length-split p before after in let k = ap length e in ground arith

  stop_accepting-IsCounted : IsCounted max (stop_accepting s)
  unfolding stop_accepting
  stop_accepting-IsCounted = omega arith

-- In every life of the store the pending writes are the packets on their way, one slot each, and
-- never more than the options allow. So a completed write always gives back a slot that was taken.
pub Ran-IsCounted :
    {max : ℕ} {stream_key : Text} {h : List PacketInfo} {s : PacketStore}
    → Ran max stream_key h s
    → IsCounted max s
Ran-IsCounted {max} (made e) = subst (IsCounted max) (sym e) (omega arith)
Ran-IsCounted (begun r p taken e) = begin_store-IsCounted (Ran-IsCounted r) p e
Ran-IsCounted (posted r p before after e) =
    post_packet-IsCounted (Ran-IsCounted r) false p before after e
Ran-IsCounted (unposted r p before after e) =
    post_packet-IsCounted (Ran-IsCounted r) true p before after e
Ran-IsCounted {stream_key = k} (handled r throws p others e) =
    run_posted-IsCounted (Ran-IsCounted r) throws k p others e
Ran-IsCounted (answered r p before after e) =
    finish_write-IsCounted (Ran-IsCounted r) p before after e
Ran-IsCounted (stopped {s = s} r) = stop_accepting-IsCounted (Ran-IsCounted r)
