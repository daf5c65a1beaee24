-- ===== src/Store/Drain.antt =====
-- After the destructor has begun, the store runs empty.
use mathlib.Core.Path.{subst}
use elephant_shrew.Prelude.{
  ℕ, zero, suc, ◌+◌, ◌*◌, ◌≤◌, ◌<◌, ◌≡◌, refl, ap, ◌∙◌, ◌⊎◌, inl, inr, Bool, true, false, List, [],
  ◌∷◌, ◌++◌, some, arith, length, length-append, Bool-cases,
}
use elephant_shrew.Config.{Text}
use elephant_shrew.Store.{
  PacketInfo, PacketStore, reserve_slot, complete_write, begin_store, post_packet, run_posted,
  finish_write, stop_accepting, is_drained,
}
use elephant_shrew.Store.Steps.{Ran, IsCounted, length-split, Ran-IsCounted}

-- one action that moves a packet on
pub data Work (stream_key : Text) (s : PacketStore) : PacketStore → Type 0 where
  post :
      (throws : Bool) (p : PacketInfo) (before after : List PacketInfo)
      → s.reserved ≡ before ++ (p ∷ after)
      → Work stream_key s (post_packet throws p (before ++ after) s)
  handle :
      (throws : Bool) (p : PacketInfo) (others : List PacketInfo)
      → s.posted ≡ p ∷ others
      → Work stream_key s (run_posted throws stream_key p others s)
  answer :
      (p : PacketInfo) (before after : List PacketInfo)
      → s.executing ≡ before ++ (p ∷ after)
      → Work stream_key s (finish_write (before ++ after) s)

-- the actions that the packets on their way still need, at most
abbrev pub work_left : PacketStore → ℕ
work_left s = 3 * length s.reserved + 2 * length s.posted + length s.executing

module _ {stream_key : Text} {s : PacketStore} where
  Work-IsCounted :
      {max : ℕ} {t : PacketStore} → Work stream_key s t → IsCounted max s → IsCounted max t
  unfolding post_packet run_posted finish_write complete_write
  Work-IsCounted (post true p before after e) v =
      let l = length-split p before after in let k = ap length e in ground arith
  Work-IsCounted (post false p before after e) v =
      let l = length-split p before after in
      let k = ap length e in ground (arith, length-append s.posted (p ∷ []))
  Work-IsCounted (handle true p others e) v = let k = ap length e in ground arith
  Work-IsCounted (handle false p others e) v =
      let k = ap length e in ground (arith, length-append s.executing (p ∷ []))
  Work-IsCounted (answer p before after e) v =
      let l = length-split p before after in let k = ap length e in ground arith

  work_left-Work :
      {t : PacketStore}
      → Work stream_key s t
      → (work_left t < work_left s) × (t.accepting_writes ≡ s.accepting_writes)
  unfolding post_packet run_posted finish_write complete_write
  work_left-Work (post true p before after e) =
      let l = length-split p before after in let k = ap length e in ground arith
  work_left-Work (post false p before after e) =
      let l = length-split p before after in
      let k = ap length e in ground (arith, length-append s.posted (p ∷ []))
  work_left-Work (handle true p others e) = let k = ap length e in ground arith
  work_left-Work (handle false p others e) =
      let k = ap length e in ground (arith, length-append s.executing (p ∷ []))
  work_left-Work (answer p before after e) =
      let l = length-split p before after in let k = ap length e in ground arith

  -- While a write is pending, some packet can be moved on.
  pending-Work :
      {max : ℕ} → IsCounted max s → is_drained s ≡ false → (t : PacketStore) × Work stream_key s t
  pending-Work v h = go s.reserved s.posted s.executing refl refl refl
    where
      go :
          (rs ps es : List PacketInfo)
          → s.reserved ≡ rs
          → s.posted ≡ ps
          → s.executing ≡ es
          → (t : PacketStore) × Work stream_key s t
      go (p ∷ rs) ps es er ep ee = (_, post false p [] rs er)
      go [] (p ∷ ps) es er ep ee = (_, handle false p ps ep)
      go [] [] (p ∷ es) er ep ee = (_, answer p [] es ee)
      go [] [] [] er ep ee =
          let a = ap length er in
          let b = ap length ep in let c = ap length ee in absurd (ground (arith, v.counted))

-- `n` actions after the destructor has begun; threads that ask for a slot in between are turned away
pub data Draining (max : ℕ) (stream_key : Text) (s : PacketStore) : ℕ → PacketStore → Type 0 where
  here : Draining max stream_key s zero s
  moved :
      {n : ℕ} {t u : PacketStore}
      → Draining max stream_key s n t
      → Work stream_key t u
      → Draining max stream_key s (suc n) u
  asked :
      {n : ℕ} {t : PacketStore}
      → Draining max stream_key s n t
      → (p : PacketInfo) (taken : Bool) {u : PacketStore} → begin_store max p t ≡ some (taken, u)
      → Draining max stream_key s n u

asked-same :
    (max : ℕ) (p : PacketInfo) (t : PacketStore) {taken : Bool} {u : PacketStore}
    → t.accepting_writes ≡ false
    → begin_store max p t ≡ some (taken, u)
    → (taken ≡ false) × (t ≡ u)
unfolding begin_store reserve_slot
asked-same max p t a e = ground arith

-- bookkeeping along a drain
record Books (max n : ℕ) (s t : PacketStore) : Type 0 where
  shut : t.accepting_writes ≡ false
  counts : IsCounted max t
  spent : work_left t + n ≤ work_left s

Draining-Books :
    {max : ℕ} {stream_key : Text} {s : PacketStore} {n : ℕ} {t : PacketStore}
    → s.accepting_writes ≡ false
    → IsCounted max s
    → Draining max stream_key s n t
    → Books max n s t
Draining-Books a v here = record { shut = a; counts = v; spent = omega arith }
Draining-Books a v (moved d w) =
    let b = Draining-Books a v d in
    let (less, same) = work_left-Work w in
    record {
      shut = same ∙ b.shut;
      counts = Work-IsCounted w b.counts;
      spent = omega (arith, less, b.spent);
    }
Draining-Books {max} {s = s} {n} a v (asked {t = t} d p taken e) =
    let b = Draining-Books a v d in subst (Books max n s) (asked-same max p t b.shut e).1 b

-- Once the destructor has begun, in any life of the store: at most three actions for each slot follow,
-- whoever asks for a slot in between, and until no write is pending some packet can be moved on. So
-- the wait of the destructor ends unless the server or the io thread stops answering.
pub Draining_bounded :
    {max n : ℕ} {stream_key : Text} {h : List PacketInfo} {s t : PacketStore}
    → Ran max stream_key h s
    → Draining max stream_key (stop_accepting s) n t
    → (n ≤ 3 * max)
      × (t.accepting_writes ≡ false)
      × ((is_drained t ≡ true) ⊎ ((u : PacketStore) × Work stream_key t u))
unfolding stop_accepting
Draining_bounded {t = t} r d =
    let v = Ran-IsCounted r in
    let b = Draining-Books refl (omega (arith, v.counted, v.bounded)) d in
    (
      omega (arith, b.spent, v.counted, v.bounded),
      b.shut,
      elim (Bool-cases (is_drained t)) [ inl p ↦ inl p | inr p ↦ inr (pending-Work b.counts p) ],
    )
