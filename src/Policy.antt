-- ===== src/Policy.antt =====
-- bpf/elephantshrew_active_tc.bpf.c, bpf/elephantshrew_policy_shared.h: the active policy, which drops,
-- mirrors or redirects a packet by the rule for it. The kernel's helpers are parameters: `Skb.load_bytes`,
-- the lookup in the rules, and what `bpf_clone_redirect` and `bpf_redirect` give back.
pub mod Steered
mod Tests
use elephant_shrew.Prelude.{
  ℕ, ◌≡◌, Bool, true, false, not, ◌&&◌, ◌||◌, List, Option, none, some, add64, ltb, ◌==◌,
  if◌then◌else◌, has_flag,
}
use mathlib.Core.Option
use elephant_shrew.Abi.{
  Tuple, zero_tuple, Counters, FlowKey, Direction, ingress, direction_code, TcVerdict, tc_next,
  tc_drop, ParseStatus, parse_ok, truncated, parse_bytes, t_ports_valid,
}
use elephant_shrew.Observer.{Skb, parse_loaded}

-- `enum es_policy_action`
abbrev pub policy_next : ℕ
policy_next = 0

abbrev pub policy_drop : ℕ
policy_drop = 1

abbrev pub policy_mirror : ℕ
policy_mirror = 2

abbrev pub policy_redirect : ℕ
policy_redirect = 3

-- `struct es_policy_key`: kind 0 is the default key, kind 1 an exact tuple
pub record PolicyKey : Type 0 where
  pub flow : FlowKey
  pub kind : ℕ
  pub reserved : ℕ

-- `struct es_rule`
pub record Rule : Type 0 where
  pub action : ℕ
  pub out_ifindex : ℕ
  pub generation : ℕ

-- a generation of rules, the inner map
abbrev pub Rules : Type 0
Rules = PolicyKey → Option Rule

-- `clone` says whether `bpf_clone_redirect` to an interface succeeds, `redirect` is what
-- `bpf_redirect` returns.
pub record Ports : Type 0 where
  pub clone : ℕ → Bool
  pub redirect : ℕ → TcVerdict

-- the verdict, the counters, and the interfaces that the two helpers were called with
pub record Acted : Type 0 where
  pub verdict : TcVerdict
  pub counters : Option Counters
  pub mirrored : Option ℕ
  pub redirected : Option ℕ

-- the key after the `memset`
abbrev pub default_key : PolicyKey
default_key = record {
  flow = record { tuple = zero_tuple; ifindex = 0; direction = 0 };
  kind = 0;
  reserved = 0;
}

abbrev pub exact_key : Skb → Tuple → PolicyKey
exact_key skb t = record {
  flow = record { tuple = t; ifindex = skb.ifindex; direction = direction_code ingress };
  kind = 1;
  reserved = 0;
}

is_exact : ParseStatus × Tuple → Bool
is_exact (parse_ok, t) = has_flag t.flags t_ports_valid
is_exact (_, t) = false

-- `none` only where the parser faults
unfoldable pub parse_active : Skb → Option (ParseStatus × Tuple)
parse_active skb =
    let cap = if ltb parse_bytes skb.len then parse_bytes else skb.len in
    if not (cap == 0)
    then parse_loaded skb cap (skb.load_bytes cap)
    else some (truncated, zero_tuple)

-- the rule for the exact tuple, or else the default rule
unfoldable pub select_rule : Rules → Skb → ParseStatus × Tuple → Option Rule
unfolding is_exact
select_rule rules skb (status, t) =
    elim (if is_exact (status, t) then rules (exact_key skb t) else none) [
      | some r ↦ some r
      | none ↦ rules default_key
    ]

abbrev drop_counted : Counters → Acted
drop_counted s = record {
  verdict = tc_drop;
  counters = some (record s { policy_drop = add64 s.policy_drop 1 });
  mirrored = none;
  redirected = none;
}

-- a verdict alone
abbrev pub leave : TcVerdict → Option Counters → Acted
leave v s = record { verdict = v; counters = s; mirrored = none; redirected = none }

module _ (ports : Ports) (skb : Skb) where
  unfoldable pub mirror : ℕ → Counters → Acted
  mirror out s =
      let s' = record s { mirror_attempt = add64 s.mirror_attempt 1 } in
      record {
        verdict = tc_next;
        counters =
            some (
              if ports.clone out then s' else record s' { mirror_error = add64 s'.mirror_error 1 });
        mirrored = some out;
        redirected = none;
      }

  unfoldable pub apply_rule : Counters → Rule → Acted
  apply_rule s r =
      if r.action == policy_next
      then leave tc_next (some s)
      else if r.action == policy_drop
      then drop_counted s
      else if r.out_ifindex == 0 || r.out_ifindex == skb.ifindex
      then drop_counted s
      else if r.action == policy_mirror
      then mirror r.out_ifindex s
      else if r.action == policy_redirect
      then record {
        verdict = ports.redirect r.out_ifindex;
        counters = some (record s { redirect_attempt = add64 s.redirect_attempt 1 });
        mirrored = none;
        redirected = some r.out_ifindex;
      }
      else leave tc_drop (some s)

  unfoldable pub apply_selected : Counters → Option Rule → Acted
  apply_selected s none = leave tc_next (some s)
  apply_selected s (some r) = apply_rule s r

  -- The program; `none` only where the parser faults.
  unfoldable pub es_active_ingress : Option Rules → Option Counters → Option Acted
  es_active_ingress none s = some (leave tc_next s)
  es_active_ingress (some rules) none = some (leave tc_next none)
  es_active_ingress (some rules) (some s) =
      Option.map (λ p. apply_selected s (select_rule rules skb p)) (parse_active skb)
