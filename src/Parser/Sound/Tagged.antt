-- ===== src/Parser/Sound/Tagged.antt =====
-- The tag loop backwards.
use mathlib.Core.Path.{subst}
use mathlib.Core.List.{append-nil, append_assoc}
use elephant_shrew.Prelude.{
  ℕ, zero, suc, ◌+◌, ◌^◌, ◌≤◌, ◌<◌, ◌≡◌, sym, ap, ◌∙◌, false, inl, inr, List, [], ◌∷◌, ◌++◌, arith,
  length, length-append, add32, leb, Bool-cases,
}
use elephant_shrew.Abi.{Tuple, unsupported}
use elephant_shrew.Parser.{es_need, es_vlan, push_vlan, vlan_tag, vlan_loop}
use elephant_shrew.Parser.Reader.{Parsed, next, check, es_be16}
use elephant_shrew.Parser.Wire.{Word}
use elephant_shrew.Parser.Wire.Tagged.{Tagged, untagged, tag, with_vids, push_vlan-with_vids}
use elephant_shrew.Parser.Sound.{next-inj, bind_next, branch_next, es_need_next, es_be16_next}

-- what a round has read from the tag at `off`
record Passed (p : List ℕ) (cap end off : ℕ) (seen : List ℕ) (t : Tuple) (r : ℕ × ℕ × Tuple)
    : Type 0 where
  room : length seen < 2
  tci : ℕ
  next_type : ℕ
  there : off + 4 ≤ cap
  inside : off + 4 ≤ end
  tci_word : Word p off tci
  type_word : Word p (off + 2) next_type
  result : r ≡ (next_type, off + 4, with_vids (seen ++ tci ∷ []) t)

-- what the loop has read, after the tags `seen`
pub record Read (p : List ℕ) (cap end n type off : ℕ) (seen : List ℕ) (t : Tuple)
    (r : ℕ × ℕ × Tuple) : Type 0 where
  pub vids : List ℕ
  pub tags : Tagged p cap end n type off vids r.0 r.1
  pub few : length (seen ++ vids) ≤ 2
  pub result : r.2 ≡ with_vids (seen ++ vids) t

module _ (p : List ℕ) (cap end : ℕ) (t : Tuple) (cap_word : cap < 2 ^ 32)
    (end_word : end < 2 ^ 32) where
  vlan_tag_next :
      (seen : List ℕ) (off : ℕ) {r : ℕ × ℕ × Tuple}
      → vlan_tag p cap end off (with_vids seen t) ≡ next r
      → Passed p cap end off seen t r
  unfolding vlan_tag
  vlan_tag_next seen off {r} h =
      let (room, h1) = branch_next (leb 2 (length seen)) unsupported (with_vids seen t) h in
      let few : length seen < 2 = ground arith in
      let (u, e, h2) = bind_next (check (with_vids seen t) (es_need off 4 cap end)) h1 in
      let (c, d) = es_need_next (with_vids seen t) off 4 cap end e cap_word end_word in
      let (tci, et, h3) = bind_next (es_be16 p off) h2 in
      let (t', ep, h4) = bind_next (push_vlan (with_vids seen t) tci) h3 in
      let pushed = next-inj (sym (push_vlan-with_vids seen tci t few) ∙ ep) in
      let (next_type, en, h5) = bind_next (es_be16 p (off + 2)) h4 in
      let following : add32 off 4 ≡ off + 4 = omega arith in
      record {
        room = few;
        tci = tci;
        next_type = next_type;
        there = c;
        inside = d;
        tci_word = es_be16_next p off et;
        type_word = es_be16_next p (off + 2) en;
        result = sym (next-inj h5) ∙ (λ i. (next_type, following i, sym pushed i));
      }

  untagged_lem :
      (n type off : ℕ) (seen : List ℕ) {r : ℕ × ℕ × Tuple}
      → length seen ≤ 2
      → ◌≡◌ {A = Parsed (ℕ × ℕ × Tuple)} (next (type, off, with_vids seen t)) (next r)
      → es_vlan r.0 ≡ false
      → Read p cap end n type off seen t r
  untagged_lem n type off seen {r} few h e =
      let same = next-inj h in
      record {
        vids = [];
        tags =
            subst (λ (r : ℕ × ℕ × Tuple). Tagged p cap end n type off [] r.0 r.1) same
              (untagged n type off (ap (λ (r : ℕ × ℕ × Tuple). es_vlan r.0) same ∙ e));
        few = omega (arith, length-append seen []);
        result =
            sym (ap (λ (r : ℕ × ℕ × Tuple). r.2) same)
            ∙ ap (λ l. with_vids l t) (sym (append-nil seen));
      }

  -- tags that were read are on the wire
  pub vlan_loop_next :
      (n type off : ℕ) (seen : List ℕ) {r : ℕ × ℕ × Tuple}
      → length seen ≤ 2
      → vlan_loop p cap n end type off (with_vids seen t) ≡ next r
      → es_vlan r.0 ≡ false
      → Read p cap end n type off seen t r
  unfolding vlan_loop
  vlan_loop_next zero type off seen few h e = untagged_lem zero type off seen few h e
  vlan_loop_next (suc n) type off seen {r} few h e = elim (Bool-cases (es_vlan type)) [
    | inr k ↦ untagged_lem (suc n) type off seen few (rw (k, vlan_loop) at h) e
    | inl k ↦
        let (r', ev, h1) =
          bind_next (vlan_tag p cap end off (with_vids seen t)) (rw (k, vlan_loop) at h) in
        let v = vlan_tag_next seen off ev in
        let longer : length (seen ++ v.tci ∷ []) ≡ length seen + 1 =
          length-append seen (v.tci ∷ []) in
        let loop = λ (r' : ℕ × ℕ × Tuple). vlan_loop p cap n end r'.0 r'.1 r'.2 in
        let rest =
          vlan_loop_next n v.next_type (off + 4) (seen ++ v.tci ∷ [])
            (omega (arith, v.room, longer)) (sym (ap loop v.result) ∙ h1) e in
        let joined = append_assoc seen (v.tci ∷ []) rest.vids in
        record {
          vids = v.tci ∷ rest.vids;
          tags =
              tag n type off v.tci v.next_type rest.vids r.0 r.1 k v.there v.inside v.tci_word
                v.type_word rest.tags;
          few = subst (λ l. length l ≤ 2) joined rest.few;
          result = rest.result ∙ ap (λ l. with_vids l t) joined;
        }
  ]
