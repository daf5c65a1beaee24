-- ===== src/Policy/Steered.antt =====
-- Where the active policy may send a packet, and what it counts.
use mathlib.Core.Option
use mathlib.Core.Path.{subst}
use elephant_shrew.Prelude.{
  ℕ, ◌<◌, ◌≡◌, ◌≢◌, ◌⊎◌, refl, sym, ap, ◌∙◌, inl, inr, Bool, true, false, ◌||◌, Option, none, some,
  some_inj, arith, add64, ltb, ◌==◌, ==_iff, if◌then◌else◌, Bool-cases, Option-cases, has_flag,
}
use elephant_shrew.Abi.{
  Tuple, zero_tuple, Counters, tc_next, tc_drop, ParseStatus, parse_ok, truncated, unsupported,
  malformed, fragment, skipped, t_ports_valid,
}
use elephant_shrew.Observer.{Settings, Skb}
use elephant_shrew.Observer.Described.{
  IsSkb, IsDescribed, zero-IsDescribed, parse_loaded-IsDescribed,
}
use elephant_shrew.Policy.{
  policy_next, policy_drop, policy_mirror, policy_redirect, Rule, Rules, Ports, Acted, default_key,
  exact_key, parse_active, is_exact, select_rule, leave, mirror, apply_rule, apply_selected,
  es_active_ingress,
}

module _ (rules : Rules) (skb : Skb) where
  -- The rule that the packet is under: the one for its tuple, which is of a TCP or UDP packet that is no
  -- fragment, and only where there is none of those, the default one.
  pub data InForce (r : Rule) : Type 0 where
    by_default :
        ((t : Tuple)
          → parse_active skb ≡ some (parse_ok, t)
          → has_flag t.flags t_ports_valid ≡ true
          → rules (exact_key skb t) ≡ none)
        → rules default_key ≡ some r
        → InForce r
    by_tuple :
        (t : Tuple)
        → parse_active skb ≡ some (parse_ok, t)
        → IsDescribed t
        → has_flag t.flags t_ports_valid ≡ true
        → rules (exact_key skb t) ≡ some r
        → InForce r

  -- a rule in force that says so
  abbrev pub Says : ℕ → ℕ → Type 0
  Says action out = (r : Rule) × InForce r × (r.action ≡ action) × (r.out_ifindex ≡ out)

  abbrev pub called : Option ℕ → Bool
  called none = false
  called (some out) = true

  pub record IsSteered (s : Counters) (a : Acted) : Type 0 where
    -- a mirrored packet goes on, its copy leaves by another interface, as a rule says
    pub mirror_out :
        (out : ℕ)
        → a.mirrored ≡ some out
        → (out ≢ 0) × (out ≢ skb.ifindex) × (a.verdict ≡ tc_next) × Says policy_mirror out
    -- and so does a redirected one, which is not mirrored too
    pub redirect_out :
        (out : ℕ)
        → a.redirected ≡ some out
        → (out ≢ 0) × (out ≢ skb.ifindex) × (a.mirrored ≡ none) × Says policy_redirect out
    pub after : Counters
    pub counted : a.counters ≡ some after
    pub attempts :
        (after.mirror_attempt
          ≡ (if called a.mirrored then add64 s.mirror_attempt 1 else s.mirror_attempt))
        × (after.redirect_attempt
            ≡ (if called a.redirected then add64 s.redirect_attempt 1 else s.redirect_attempt))
    -- a drop is counted, but for a redirect that the kernel refused, and a rule of an unknown action
    pub drops :
        a.verdict ≡ tc_drop
        → (after.policy_drop ≡ add64 s.policy_drop 1)
          ⊎ ((called a.redirected ≡ true) ⊎ ((r : Rule) × InForce r × (3 < r.action)))

  none-some : {out : ℕ} → none ≡ some out → ⊥
  none-some h = cc

  false-true : false ≡ true → ⊥
  false-true h = cc

  next-drop : tc_next ≡ tc_drop → ⊥
  next-drop h = cc

  passed-IsSteered : (s : Counters) → IsSteered s (leave tc_next (some s))
  passed-IsSteered s = record {
    mirror_out = λ out e. absurd (none-some e);
    redirect_out = λ out e. absurd (none-some e);
    after = s;
    counted = refl;
    attempts = (refl, refl);
    drops = λ e. absurd (next-drop e);
  }

  module _ (ports : Ports) (s : Counters) (r : Rule) (force : InForce r) where
    dropped : IsSteered s (record {
      verdict = tc_drop;
      counters = some (record s { policy_drop = add64 s.policy_drop 1 });
      mirrored = none;
      redirected = none;
    })
    dropped = record {
      mirror_out = λ out e. absurd (none-some e);
      redirect_out = λ out e. absurd (none-some e);
      after = record s { policy_drop = add64 s.policy_drop 1 };
      counted = refl;
      attempts = (refl, refl);
      drops = λ e. inl refl;
    }

    away :
        (r.out_ifindex == 0 || r.out_ifindex == skb.ifindex) ≡ false
        → (r.out_ifindex ≢ 0) × (r.out_ifindex ≢ skb.ifindex)
    away o = (λ e. ground arith, λ e. ground arith)

    says :
        (action : ℕ)
        → (r.action == action) ≡ true
        → (out : ℕ) → some r.out_ifindex ≡ some out
        → Says action out
    says action k out e = (r, force, (==_iff r.action action).0 k, some_inj e)

    at : (P : ℕ → Type 0) {out : ℕ} → some r.out_ifindex ≡ some out → P r.out_ifindex → P out
    at P e = subst P (some_inj e)

    mirrored :
        (r.out_ifindex == 0 || r.out_ifindex == skb.ifindex) ≡ false
        → (r.action == policy_mirror) ≡ true
        → IsSteered s (mirror ports skb r.out_ifindex s)
    unfolding mirror
    mirrored o k = elim (Bool-cases (ports.clone r.out_ifindex)) [
      | inl c ↦ record {
        mirror_out = λ out e. (
          at (λ x. x ≢ 0) e (away o).0,
          at (λ x. x ≢ skb.ifindex) e (away o).1,
          refl,
          says policy_mirror k out e,
        );
        redirect_out = λ out e. absurd (none-some e);
        after = record s { mirror_attempt = add64 s.mirror_attempt 1 };
        counted = rw c;
        attempts = (refl, refl);
        drops = λ e. absurd (next-drop e);
      }
      | inr c ↦ record {
        mirror_out = λ out e. (
          at (λ x. x ≢ 0) e (away o).0,
          at (λ x. x ≢ skb.ifindex) e (away o).1,
          refl,
          says policy_mirror k out e,
        );
        redirect_out = λ out e. absurd (none-some e);
        after = record s {
          mirror_attempt = add64 s.mirror_attempt 1;
          mirror_error = add64 s.mirror_error 1;
        };
        counted = rw c;
        attempts = (refl, refl);
        drops = λ e. absurd (next-drop e);
      }
    ]

    redirected :
        (r.out_ifindex == 0 || r.out_ifindex == skb.ifindex) ≡ false
        → (r.action == policy_redirect) ≡ true
        → IsSteered s (record {
          verdict = ports.redirect r.out_ifindex;
          counters = some (record s { redirect_attempt = add64 s.redirect_attempt 1 });
          mirrored = none;
          redirected = some r.out_ifindex;
        })
    redirected o k = record {
      mirror_out = λ out e. absurd (none-some e);
      redirect_out = λ out e. (
        at (λ x. x ≢ 0) e (away o).0,
        at (λ x. x ≢ skb.ifindex) e (away o).1,
        refl,
        says policy_redirect k out e,
      );
      after = record s { redirect_attempt = add64 s.redirect_attempt 1 };
      counted = refl;
      attempts = (refl, refl);
      drops = λ e. inr (inl refl);
    }

    unknown : 3 < r.action → IsSteered s (leave tc_drop (some s))
    unknown h = record {
      mirror_out = λ out e. absurd (none-some e);
      redirect_out = λ out e. absurd (none-some e);
      after = s;
      counted = refl;
      attempts = (refl, refl);
      drops = λ e. inr (inr (r, force, h));
    }

    apply_rule-IsSteered : IsSteered s (apply_rule ports skb s r)
    unfolding apply_rule
    apply_rule-IsSteered = elim (Bool-cases (r.action == policy_next)) [
      | inl p ↦ rw p (passed-IsSteered s)
      | inr p ↦ elim (Bool-cases (r.action == policy_drop)) [
        | inl q ↦ rw (p, q) dropped
        | inr q ↦ elim (Bool-cases (r.out_ifindex == 0 || r.out_ifindex == skb.ifindex)) [
          | inl o ↦ rw (p, q, o) dropped
          | inr o ↦ elim (Bool-cases (r.action == policy_mirror)) [
            | inl k ↦ rw (p, q, o, k) (mirrored o k)
            | inr k ↦ elim (Bool-cases (r.action == policy_redirect)) [
              | inl l ↦ rw (p, q, o, k, l) (redirected o l)
              | inr l ↦ rw (p, q, o, k, l) (unknown (ground arith))
            ]
          ]
        ]
      ]
    ]

  apply_selected-IsSteered :
      (ports : Ports) (s : Counters) (o : Option Rule)
      → ((r : Rule) → o ≡ some r → InForce r)
      → IsSteered s (apply_selected ports skb s o)
  unfolding apply_selected
  apply_selected-IsSteered ports s none h = passed-IsSteered s
  apply_selected-IsSteered ports s (some r) h = apply_rule-IsSteered ports s r (h r refl)

  true-of_exact :
      (status : ParseStatus) (t : Tuple)
      → is_exact (status, t) ≡ true
      → (status ≡ parse_ok) × (has_flag t.flags t_ports_valid ≡ true)
  unfolding is_exact
  true-of_exact parse_ok t h = (refl, h)
  true-of_exact truncated t h = absurd (false-true h)
  true-of_exact unsupported t h = absurd (false-true h)
  true-of_exact malformed t h = absurd (false-true h)
  true-of_exact fragment t h = absurd (false-true h)
  true-of_exact skipped t h = absurd (false-true h)

  -- a rule that is selected is in force
  select_rule-InForce :
      (p : ParseStatus × Tuple)
      → parse_active skb ≡ some p
      → IsDescribed p.1
      → (r : Rule) → select_rule rules skb p ≡ some r
      → InForce r
  unfolding select_rule is_exact
  select_rule-InForce (status, t) e d r h = elim (Bool-cases (is_exact (status, t))) [
    | inr p ↦
        by_default (λ t' e' f. absurd (true-false (sym (exact_of e' f) ∙ p)))
          (rw (p, select_rule) at h)
    | inl p ↦
        let (ok, flag) = true-of_exact status t p in
        elim (Option-cases (rules (exact_key skb t))) [
          | inl q ↦
              by_default (λ t' e' f. ap (λ u. rules (exact_key skb u)) (same_tuple e') ∙ q)
                (rw (p, q, select_rule) at h)
          | inr (r', q) ↦
              by_tuple t (e ∙ ap (λ x. some (x, t)) ok) d flag (q ∙ (rw (p, q, select_rule) at h))
        ]
  ]
    where
      true-false : true ≡ false → ⊥
      true-false h = cc

      same :
          {t' : Tuple}
          → parse_active skb ≡ some (parse_ok, t')
          → ◌≡◌ {A = ParseStatus × Tuple} (parse_ok, t') (status, t)
      same e' = some_inj (sym e' ∙ e)

      same_tuple : {t' : Tuple} → parse_active skb ≡ some (parse_ok, t') → t' ≡ t
      same_tuple e' = ap (λ (x : ParseStatus × Tuple). x.1) (same e')

      exact_of :
          {t' : Tuple}
          → parse_active skb ≡ some (parse_ok, t')
          → has_flag t'.flags t_ports_valid ≡ true
          → is_exact (status, t) ≡ true
      exact_of e' f = subst (λ x. is_exact x ≡ true) (same e') f

  -- settings that the parser does not read
  abbrev unset : Settings
  unset = record {
    sample_every = 0;
    snapshot_bytes = 0;
    classify = true;
    flow_enabled = false;
    select_l4_proto = 0;
  }

  parse_active-IsDescribed :
      IsSkb skb → (p : ParseStatus × Tuple) × (parse_active skb ≡ some p) × IsDescribed p.1
  unfolding parse_active
  parse_active-IsDescribed v =
      let cap : ℕ = if ltb 128 skb.len then 128 else skb.len in
      elim (Bool-cases (cap == 0)) [
        | inl q ↦ ((truncated, zero_tuple), rw (q, parse_active), zero-IsDescribed)
        | inr q ↦
            let (status, t, e, k) =
              parse_loaded-IsDescribed unset skb v cap (skb.load_bytes cap) (ground arith) refl in
            ((status, t), rw (q, parse_active) e, k)
      ]

-- Where the packet's fields have their widths and a load that succeeds gives the bytes asked for,
-- the policy decides on every packet. Without rules or counters the packet goes on. Otherwise a copy or
-- the packet itself is sent only where a rule in force says so, never to interface 0 or back to the
-- interface it came from, and not both; each attempt is counted, and so is each drop, but for a
-- redirect that the kernel refused and a rule of an unknown action.
pub es_active_ingress-IsSteered :
    (ports : Ports) (skb : Skb) (o : Option Rules) (c : Option Counters)
    → IsSkb skb
    → ((es_active_ingress ports skb o c ≡ some (leave tc_next c)) × ((o ≡ none) ⊎ (c ≡ none)))
      ⊎ ((rules : Rules) × (s : Counters) × (a : Acted) × (o ≡ some rules)
          × (c ≡ some s)
          × (es_active_ingress ports skb o c ≡ some a)
          × IsSteered rules skb s a)
unfolding es_active_ingress
es_active_ingress-IsSteered ports skb none c v = inl (refl, inl refl)
es_active_ingress-IsSteered ports skb (some rules) none v = inl (refl, inr refl)
es_active_ingress-IsSteered ports skb (some rules) (some s) v =
    let (p, e, d) = parse_active-IsDescribed rules skb v in
    inr (
      rules,
      s,
      apply_selected ports skb s (select_rule rules skb p),
      refl,
      refl,
      ap (Option.map (λ p. apply_selected ports skb s (select_rule rules skb p))) e,
      apply_selected-IsSteered rules skb ports s (select_rule rules skb p)
          (select_rule-InForce rules skb p e d),
    )
