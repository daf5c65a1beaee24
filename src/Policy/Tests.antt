-- ===== src/Policy/Tests.antt =====
-- The policy on a UDP packet with a rule of its own, and the theorem at it.
use elephant_shrew.Prelude.{ℕ, ◌≡◌, ◌⊎◌, refl, ap, false, none, some, arith, ◌==◌, if◌then◌else◌}
use mathlib.Core.Option
use elephant_shrew.Abi.{Counters, tc_next, tc_redirect, parse_ok}
use elephant_shrew.Parser.Tests.{v4, v4_tuple, parse_buffered-v4}
use elephant_shrew.Observer.{Skb, buffer, buffer_of, parse_loaded}
use elephant_shrew.Observer.Tests.{load_of, load_of-fits, counters}
use elephant_shrew.Observer.Described.{IsSkb}
use elephant_shrew.Policy.{
  Rule, Rules, Ports, Acted, leave, mirror, policy_drop, policy_mirror, policy_redirect,
  parse_active, is_exact, select_rule, apply_rule, apply_selected, es_active_ingress,
}
use elephant_shrew.Policy.Steered.{IsSteered, es_active_ingress-IsSteered}

abbrev skb : Skb
skb = record { len = 42; ifindex = 3; vlan_present = false; vlan_tci = 0; load_bytes = load_of v4 }

skb-IsSkb : IsSkb skb
skb-IsSkb = record {
  len_word = omega arith;
  ifindex_word = omega arith;
  ifindex_set = omega arith;
  loads = load_of-fits v4 (ground arith);
}

abbrev ports : Ports
ports = record { clone = λ out. out == 7; redirect = λ out. tc_redirect }

abbrev rule : ℕ → Rule
rule action = record { action = action; out_ifindex = 7; generation = 1 }

-- all that has no rule of its own is dropped
abbrev rules : Rules
rules key = if key.kind == 1 then some (rule policy_mirror) else some (rule policy_drop)

abbrev mirrored : Acted
mirrored = record {
  verdict = tc_next;
  counters = some (record counters { mirror_attempt = 1 });
  mirrored = some 7;
  redirected = none;
}

parse_active-skb : parse_active skb ≡ some (parse_ok, v4_tuple)
unfolding parse_active parse_loaded buffer buffer_of
parse_active-skb = parse_buffered-v4

es_active_ingress-skb : es_active_ingress ports skb (some rules) (some counters) ≡ some mirrored
unfolding es_active_ingress apply_selected apply_rule mirror select_rule is_exact
es_active_ingress-skb =
    ap (Option.map (λ p. apply_selected ports skb counters (select_rule rules skb p)))
      parse_active-skb

-- a packet is never sent back to where it came from
apply_rule-loop :
    (apply_rule ports (record skb { ifindex = 7 }) counters (rule policy_redirect)).redirected
    ≡ none
unfolding apply_rule
apply_rule-loop = refl

es_active_ingress-IsSteered_example :
    ((es_active_ingress ports skb (some rules) (some counters)
        ≡ some (leave tc_next (some counters)))
      × ((some rules ≡ none) ⊎ (some counters ≡ none)))
    ⊎ ((rules' : Rules) × (s : Counters) × (a : Acted) × (some rules ≡ some rules')
        × (some counters ≡ some s)
        × (es_active_ingress ports skb (some rules) (some counters) ≡ some a)
        × IsSteered rules' skb s a)
es_active_ingress-IsSteered_example =
    es_active_ingress-IsSteered ports skb (some rules) (some counters) skb-IsSkb
