-- ===== src/Cli/Effective.antt =====
-- What the command line and the configuration that takes effect can be relied on for.
use mathlib.Core.Path.{subst}
use elephant_shrew.Prelude.{
  ℕ, ◌≡◌, ◌≢◌, refl, sym, ap, ◌∙◌, true, false, not, ◌&&◌, List, [], ◌∷◌, Option, none, some, arith,
  inl, inr, Bool-cases, Option-cases, some_inj,
}
use elephant_shrew.Config.{
  Text, is_empty, RuntimeConfig, RedisStoreOptions, SupervisorOptions, default_config,
}
use elephant_shrew.Config.Valid.{on, off, IsValid, is_empty-ne}
use elephant_shrew.Cli.{
  separator, named, parse_route_spec, CliOptions, is_set, has_ifaces, scan_conflicts, check_options,
  override_capture, override_route, override_direction, load_effective_config,
}

-- Options that may stand together.
pub record IsCommand (o : CliOptions) : Type 0 where
  pub scan_alone :
      o.scan_only ≡ true
      → (o.ifaces ≡ [])
        × (is_set o.route_spec ≡ false)
        × (o.record_packets ≡ false)
        × (o.debug_packets ≡ false)
        × (o.bidirectional_route ≡ false)
  pub route_or_ifaces : is_set o.route_spec ≡ true → o.ifaces ≡ []
  pub both_ways_routed : o.bidirectional_route ≡ true → is_set o.route_spec ≡ true

has_ifaces-eq : (o : CliOptions) → has_ifaces o ≡ false → o.ifaces ≡ []
has_ifaces-eq o h = go o.ifaces h
  where
    go : (l : List Text) → (elim l [ [] ↦ false | i ∷ is ↦ true ]) ≡ false → l ≡ []
    go [] h = refl
    go (i ∷ is) h = absurd cc

none-some : {A : Type 0} {a : A} → none ≡ some a → ⊥
none-some h = cc

pub check_options-IsCommand :
    (o : CliOptions) {o' : CliOptions} → check_options o ≡ some o' → (o ≡ o') × IsCommand o
unfolding check_options
check_options-IsCommand o e = elim (Bool-cases (scan_conflicts o)) [
  | inl p ↦ absurd (none-some (rw (p, check_options) at e))
  | inr p ↦ elim (Bool-cases (is_set o.route_spec && has_ifaces o)) [
    | inl q ↦ absurd (none-some (rw (p, q, check_options) at e))
    | inr q ↦ elim (Bool-cases (o.bidirectional_route && not (is_set o.route_spec))) [
      | inl r ↦ absurd (none-some (rw (p, q, r, check_options) at e))
      | inr r ↦ (
        some_inj (rw (p, q, r, check_options) at e),
        record {
          scan_alone = λ s. (
            has_ifaces-eq o (ground (arith, p)),
            ground (arith, p),
            ground (arith, p),
            ground (arith, p),
            ground (arith, p),
          );
          route_or_ifaces = λ s. has_ifaces-eq o (ground (arith, q));
          both_ways_routed = λ s. ground (arith, r);
        },
      )
    ]
  ]
]

-- the limits and names that the options do not reach, and routing with two names
pub record IsRunnable (c : RuntimeConfig) : Type 0 where
  pub host : c.redis.host ≢ []
  pub port : c.redis.port ≢ []
  pub stream_key : c.redis.stream_key ≢ []
  pub writes : c.redis.max_pending_writes ≢ 0
  pub connect : c.redis.connect_timeout_ms ≢ 0
  pub drain : c.redis.drain_timeout_ms ≢ 0
  pub restart : c.supervisor.restart_delay_ms ≢ 0
  pub poll : c.supervisor.poll_interval_ms ≢ 0
  pub ingress : c.routing.enabled ≡ true → c.routing.ingress_iface ≢ []
  pub egress : c.routing.enabled ≡ true → c.routing.egress_iface ≢ []

cons-ne : {x : ℕ} {xs : Text} → x ∷ xs ≢ []
cons-ne h = cc

pub default_config-IsRunnable : IsRunnable default_config
default_config-IsRunnable = record {
  host = cons-ne;
  port = cons-ne;
  stream_key = cons-ne;
  writes = λ h. absurd (omega arith);
  connect = λ h. absurd (omega arith);
  drain = λ h. absurd (omega arith);
  restart = λ h. absurd (omega arith);
  poll = λ h. absurd (omega arith);
  ingress = λ h. absurd cc;
  egress = λ h. absurd cc;
}

IsValid-IsRunnable : (c : RuntimeConfig) → IsValid c → IsRunnable c
IsValid-IsRunnable c v = record {
  host = v.host;
  port = v.port;
  stream_key = v.stream_key;
  writes = v.writes;
  connect = v.connect;
  drain = v.drain;
  restart = v.restart;
  poll = v.poll;
  ingress = λ h. elim v.routing [ on e i g d ↦ i | off e i g ↦ absurd cc ];
  egress = λ h. elim v.routing [ on e i g d ↦ g | off e i g ↦ absurd cc ];
}

named-ne : (a b : Text) {i g : Text} → named a b ≡ some (i, g) → (i ≢ []) × (g ≢ [])
named-ne a b h = elim (Bool-cases (is_empty a)) [
  | inl p ↦ absurd (none-some (rw p at h))
  | inr p ↦ elim (Bool-cases (is_empty b)) [
    | inl q ↦ absurd (none-some (rw (p, q) at h))
    | inr q ↦
        subst (λ (r : Text × Text). (r.0 ≢ []) × (r.1 ≢ [])) (some_inj (rw (p, q) at h))
          (is_empty-ne a p, is_empty-ne b q)
  ]
]

parse_route_spec-ne :
    (s : Text) {i g : Text} → parse_route_spec s ≡ some (i, g) → (i ≢ []) × (g ≢ [])
unfolding parse_route_spec
parse_route_spec-ne s h = elim (Option-cases (separator s)) [
  | inl p ↦ absurd (none-some (rw (p, parse_route_spec) at h))
  | inr ((pos, size), p) ↦ named-ne _ _ (rw (p, parse_route_spec) at h)
]

-- a change of the routing to two names, or of nothing that matters
rerouted :
    (c c' : RuntimeConfig)
    → IsRunnable c
    → c'.redis ≡ c.redis
    → c'.supervisor ≡ c.supervisor
    → (c'.routing.enabled ≡ true → (c'.routing.ingress_iface ≢ []) × (c'.routing.egress_iface ≢ []))
    → IsRunnable c'
rerouted c c' v r s named = record {
  host = λ h. v.host (ap (λ (x : RedisStoreOptions). x.host) (sym r) ∙ h);
  port = λ h. v.port (ap (λ (x : RedisStoreOptions). x.port) (sym r) ∙ h);
  stream_key = λ h. v.stream_key (ap (λ (x : RedisStoreOptions). x.stream_key) (sym r) ∙ h);
  writes = λ h. v.writes (ap (λ (x : RedisStoreOptions). x.max_pending_writes) (sym r) ∙ h);
  connect = λ h. v.connect (ap (λ (x : RedisStoreOptions). x.connect_timeout_ms) (sym r) ∙ h);
  drain = λ h. v.drain (ap (λ (x : RedisStoreOptions). x.drain_timeout_ms) (sym r) ∙ h);
  restart = λ h. v.restart (ap (λ (x : SupervisorOptions). x.restart_delay_ms) (sym s) ∙ h);
  poll = λ h. v.poll (ap (λ (x : SupervisorOptions). x.poll_interval_ms) (sym s) ∙ h);
  ingress = λ e. (named e).0;
  egress = λ e. (named e).1;
}

override_route-IsRunnable :
    (spec : Option Text) (c : RuntimeConfig) {c' : RuntimeConfig}
    → IsRunnable c
    → override_route spec c ≡ some c'
    → IsRunnable c'
override_route-IsRunnable none c v e = subst IsRunnable (some_inj e) v
override_route-IsRunnable (some s) c v e = elim (Option-cases (parse_route_spec s)) [
  | inl p ↦ absurd (none-some (rw p at e))
  | inr ((i, g), p) ↦
      let ends = parse_route_spec-ne s p in
      let routed : RuntimeConfig = record c {
        routing = record c.routing { enabled = true; ingress_iface = i; egress_iface = g };
        capture = record c.capture { ifaces = [] };
      } in
      subst IsRunnable (some_inj (rw p at e)) (rerouted c routed v refl refl (λ h. ends))
]

module _ (load : Text → Option RuntimeConfig)
    (valid : (path : Text) (c : RuntimeConfig) → load path ≡ some c → IsValid c) where
  base-IsRunnable :
      (path : Option Text) {c : RuntimeConfig}
      → (elim path [ none ↦ some default_config | some p ↦ load p ]) ≡ some c
      → IsRunnable c
  base-IsRunnable none e = subst IsRunnable (some_inj e) default_config-IsRunnable
  base-IsRunnable (some p) {c} e = IsValid-IsRunnable c (valid p c e)

  -- Where the files that load are valid, as `load_runtime_config-IsValid` shows of the loader: the
  -- configuration that takes effect has its host, port and stream key, no zero among its limits
  -- and delays, and two interface names where it routes; and then there was no `-i`.
  pub load_effective_config-IsRunnable :
      (o : CliOptions) {c : RuntimeConfig}
      → load_effective_config load o ≡ some c
      → IsRunnable c × (c.routing.enabled ≡ true → o.ifaces ≡ [])
  unfolding load_effective_config
  load_effective_config-IsRunnable o {c} e =
      elim (Option-cases (elim o.config_path [ none ↦ some default_config | some p ↦ load p ])) [
        | inl p ↦ absurd (none-some (rw (p, load_effective_config) at e))
        | inr (c₀, p) ↦
            let over = override_capture o c₀ in
            let v : IsRunnable c₀ = base-IsRunnable o.config_path p in
            let w : IsRunnable over =
              rerouted c₀ over v refl refl (λ h. (v.ingress h, v.egress h)) in
            elim (Option-cases (override_route o.route_spec over)) [
              | inl q ↦ absurd (none-some (rw (p, q, load_effective_config) at e))
              | inr (c₁, q) ↦
                  let u : IsRunnable c₁ = override_route-IsRunnable o.route_spec over w q in
                  let c₂ = override_direction o.bidirectional_route c₁ in
                  elim (Bool-cases (c₂.routing.enabled && has_ifaces o)) [
                    | inl r ↦ absurd (none-some (rw (p, q, r, load_effective_config) at e))
                    | inr r ↦
                        subst
                          (λ (x : RuntimeConfig).
                            IsRunnable x × (x.routing.enabled ≡ true → o.ifaces ≡ []))
                          (some_inj (rw (p, q, r, load_effective_config) at e))
                          (
                            rerouted c₁ c₂ u refl refl (λ h. (u.ingress h, u.egress h)),
                            λ h. has_ifaces-eq o (ground (arith, r)),
                          )
                  ]
            ]
      ]
