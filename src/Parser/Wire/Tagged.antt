-- ===== src/Parser/Wire/Tagged.antt =====
-- VLAN tags, and what the tag loop takes from them.
use mathlib.Core.List.{append-nil, append_assoc}
use elephant_shrew.Prelude.{
  length-append, ℕ, zero, suc, ◌+◌, ◌%◌, ◌^◌, ◌≤◌, ◌<◌, ◌≡◌, refl, sym, ap, true, false, List, [],
  ◌∷◌, ◌++◌, arith, length, add32, leb,
}
use elephant_shrew.Abi.{Tuple}
use elephant_shrew.Parser.{es_vlan, push_vlan, vlan_tag, vlan_loop}
use elephant_shrew.Parser.Reader.{next, ◌>>=◌}
use elephant_shrew.Parser.Wire.{Word, es_be16-Word, check-es_need}

-- `n` tags at most, from the EtherType `type` before `off` on, with their control words, up to the EtherType
-- `type'` of what stands at `off'`
pub data Tagged (p : List ℕ) (cap end : ℕ) : ℕ → ℕ → ℕ → List ℕ → ℕ → ℕ → Type 0 where
  untagged : (n type off : ℕ) → es_vlan type ≡ false → Tagged p cap end n type off [] type off
  tag :
      (n type off tci next_type : ℕ) (vids : List ℕ) (type' off' : ℕ)
      → es_vlan type ≡ true
      → off + 4 ≤ cap
      → off + 4 ≤ end
      → Word p off tci
      → Word p (off + 2) next_type
      → Tagged p cap end n next_type (off + 4) vids type' off'
      → Tagged p cap end (suc n) type off (tci ∷ vids) type' off'

-- the array of two identifiers, of twelve bits each
abbrev pub vlan_of : List ℕ → List ℕ
vlan_of [] = 0 ∷ 0 ∷ []
vlan_of (v ∷ []) = v % 0x1000 ∷ 0 ∷ []
vlan_of (v ∷ w ∷ vs) = v % 0x1000 ∷ w % 0x1000 ∷ []

abbrev pub with_vids : List ℕ → Tuple → Tuple
with_vids vids t = record t { vlan = vlan_of vids; vlan_count = length vids }

pub push_vlan-with_vids :
    (vids : List ℕ) (vid : ℕ) (t : Tuple)
    → length vids < 2
    → push_vlan (with_vids vids t) vid ≡ next (with_vids (vids ++ vid ∷ []) t)
unfolding push_vlan
push_vlan-with_vids [] vid t h = refl
push_vlan-with_vids (v ∷ []) vid t h = refl
push_vlan-with_vids (v ∷ w ∷ vs) vid t h = absurd (omega arith)

module _ (p : List ℕ) (cap end : ℕ) (t : Tuple) (cap_word : cap < 2 ^ 32)
    (end_word : end < 2 ^ 32) where
  vlan_tag_lem :
      (seen : List ℕ) (off tci next_type : ℕ)
      → length seen < 2
      → off + 4 ≤ cap
      → off + 4 ≤ end
      → Word p off tci
      → Word p (off + 2) next_type
      → vlan_tag p cap end off (with_vids seen t)
        ≡ next (next_type, off + 4, with_vids (seen ++ tci ∷ []) t)
  unfolding vlan_tag ◌>>=◌
  vlan_tag_lem seen off tci next_type few c e w w' =
      let room : leb 2 (length seen) ≡ false = ground arith in
      let whole = check-es_need (with_vids seen t) off 4 cap end c e cap_word end_word in
      let following : add32 off 4 ≡ off + 4 = omega arith in
      rw (
        vlan_tag,
        room,
        whole,
        es_be16-Word p off tci w,
        push_vlan-with_vids seen tci t few,
        es_be16-Word p (off + 2) next_type w',
        following,
      )

  pub vlan_loop-Tagged :
      (seen : List ℕ) {n type off type' off' : ℕ} {vids : List ℕ}
      → Tagged p cap end n type off vids type' off'
      → length seen + length vids ≤ 2
      → (es_vlan type' ≡ false)
        × (vlan_loop p cap n end type off (with_vids seen t)
            ≡ next (type', off', with_vids (seen ++ vids) t))
  unfolding vlan_loop ◌>>=◌
  vlan_loop-Tagged seen (untagged zero type off e) few =
      (e, ap (λ vids. next (type, off, with_vids vids t)) (sym (append-nil seen)))
  vlan_loop-Tagged seen (untagged (suc n) type off e) few = (e, rw (vlan_loop, e, append-nil seen))
  vlan_loop-Tagged seen (tag n type off tci next_type vids type' off' e c d w w' x) few =
      let longer : length (seen ++ tci ∷ []) ≡ length seen + 1 = length-append seen (tci ∷ []) in
      let (f, r) = vlan_loop-Tagged (seen ++ tci ∷ []) x (omega arith) in
      (
        f,
        rw (
          vlan_loop,
          e,
          vlan_tag_lem seen off tci next_type (omega arith) c d w w',
          r,
          append_assoc seen (tci ∷ []) vids,
        ),
      )
