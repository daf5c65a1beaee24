-- ===== src/Xdp/Counted.antt =====
-- What the XDP programs count and what becomes of their packets.
use mathlib.Core.Path.{subst}
use elephant_shrew.Prelude.{
  ℕ, ◌+◌, ◌%◌, ◌^◌, ◌<◌, ◌≡◌, ◌↔◌, ◌⊎◌, refl, sym, ap, ◌∙◌, inl, inr, Bool, true, false, List, [],
  ◌∷◌, Option, some, arith, ltb, if◌then◌else◌, Bool-cases, length, All,
}
use elephant_shrew.Abi.{Counters}
use elephant_shrew.Xdp.{
  XdpVerdict, xdp_drop, xdp_pass, xdp_redirect, RedirectMap, count_packet, count_attempt, es_xdp,
}

-- As documented of `bpf_redirect_map`: the packet is redirected, or the flags say what it gives back.
pub record IsLawful (m : RedirectMap) : Type 0 where
  pub gives : (key : ℕ) (v : XdpVerdict) → (m key v ≡ xdp_redirect) ⊎ (m key v ≡ v)

abbrev pub total : List ℕ → ℕ
total [] = 0
total (len ∷ lens) = len + total lens

-- the packets with a whole Ethernet header
abbrev pub framed : List ℕ → ℕ
framed [] = 0
framed (len ∷ lens) = if ltb len 14 then framed lens else framed lens + 1

-- the verdicts and the counters over a series of packets
unfoldable pub run :
    Bool → RedirectMap → List ℕ → Option Counters → List XdpVerdict × Option Counters
run on tx_port [] s = ([], s)
run on tx_port (len ∷ lens) s =
    let (v, s') = es_xdp on tx_port len s in let (vs, s'') = run on tx_port lens s' in (v ∷ vs, s'')

-- what two states of the counters have to do with the packets between them
pub record IsCounted (on : Bool) (lens : List ℕ) (s t : Counters) : Type 0 where
  pub packets : t.packets ≡ (s.packets + length lens) % 2 ^ 64
  pub bytes : t.bytes ≡ (s.bytes + total lens) % 2 ^ 64
  pub attempts :
      t.redirect_attempt ≡ (s.redirect_attempt + (if on then framed lens else 0)) % 2 ^ 64

abbrev pub AreWords : Counters → Type 0
AreWords s = (s.packets < 2 ^ 64) × (s.bytes < 2 ^ 64) × (s.redirect_attempt < 2 ^ 64)

-- a packet passes only where forwarding is off
abbrev pub IsFate : Bool → XdpVerdict → Type 0
IsFate on v = (v ≡ xdp_pass) ↔ (on ≡ false)

abbrev DropOrRedirect : XdpVerdict → Type 0
DropOrRedirect v = (v ≡ xdp_redirect) ⊎ (v ≡ xdp_drop)

sent-IsFate : (v : XdpVerdict) → DropOrRedirect v → IsFate true v
sent-IsFate v (inl e) = (λ p. absurd (redirect-pass (sym e ∙ p)), λ p. absurd (true-false p))
  where
    redirect-pass : xdp_redirect ≡ xdp_pass → ⊥
    redirect-pass h = cc

    true-false : true ≡ false → ⊥
    true-false h = cc
sent-IsFate v (inr e) = (λ p. absurd (drop-pass (sym e ∙ p)), λ p. absurd (true-false p))
  where
    drop-pass : xdp_drop ≡ xdp_pass → ⊥
    drop-pass h = cc

    true-false : true ≡ false → ⊥
    true-false h = cc

module _ (tx_port : RedirectMap) (lawful : IsLawful tx_port) where
  es_xdp_step :
      (on : Bool) (len : ℕ) (s : Counters)
      → AreWords s
      → (t : Counters) × ((es_xdp on tx_port len (some s)).1 ≡ some t)
        × IsCounted on (len ∷ []) s t
        × AreWords t
        × IsFate on (es_xdp on tx_port len (some s)).0
  unfolding es_xdp
  es_xdp_step false len s w =
      (count_packet len s, refl, omega arith, omega arith, (λ p. refl, λ p. refl))
  es_xdp_step true len s w = elim (Bool-cases (ltb len 14)) [
    | inl q ↦ (
      count_packet len s,
      rw (q, es_xdp),
      ground arith,
      omega arith,
      rw (q, es_xdp) (sent-IsFate xdp_drop (inr refl)),
    )
    | inr q ↦ (
      count_attempt (count_packet len s),
      rw (q, es_xdp),
      ground arith,
      omega arith,
      rw (q, es_xdp) (sent-IsFate (tx_port 0 xdp_drop) (lawful.gives 0 xdp_drop)),
    )
  ]

  more-IsCounted :
      (on : Bool) (len : ℕ) (lens : List ℕ) (s t u : Counters)
      → IsCounted on (len ∷ []) s t
      → IsCounted on lens t u
      → IsCounted on (len ∷ lens) s u
  more-IsCounted on len lens s t u c d = ground arith

  -- Over any series of packets the counters of packets, bytes and redirects go up, modulo 2 ^ 64, by the
  -- number of packets, by the sum of their lengths, and, where forwarding is on, by the number of
  -- those with an Ethernet header; and a packet passes to the stack only where forwarding is off.
  -- Premises: the counters are words, and `bpf_redirect_map` is lawful.
  pub run-IsCounted :
      (on : Bool) (lens : List ℕ) (s : Counters)
      → AreWords s
      → ((u : Counters) × ((run on tx_port lens (some s)).1 ≡ some u) × IsCounted on lens s u)
        × All (IsFate on) (run on tx_port lens (some s)).0
  unfolding run
  run-IsCounted on [] s w = ((s, refl, grind arith), tt)
  run-IsCounted on (len ∷ lens) s w =
      let (t, e, c, w', fate) = es_xdp_step on len s w in
      let ((u, e', d), fates) = run-IsCounted on lens t w' in
      (
        (u, ap (λ o. (run on tx_port lens o).1) e ∙ e', more-IsCounted on len lens s t u c d),
        (
          fate,
          subst (λ (o : Option Counters). All (IsFate on) (run on tx_port lens o).0) (sym e) fates,
        ),
      )
