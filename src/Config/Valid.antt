-- ===== src/Config/Valid.antt =====
-- What a configuration that was loaded can be relied on for.
use mathlib.Core.Path.{subst}
use elephant_shrew.Prelude.{
  ◌≡◌, ◌≢◌, refl, true, false, [], ◌∷◌, Option, none, some, arith, inl, inr, Bool-cases,
  Option-cases, some_inj,
}
use elephant_shrew.Config.{
  Text, is_empty, same_text, RoutingOptions, RuntimeConfig, default_config, Json, read_sections,
  switch_routing, bad_routing, bad_redis_text, has_zero, check_config, load_runtime_config,
}

-- Routing is on with two different interfaces, or off with none.
pub data IsRouting (r : RoutingOptions) : Type 0 where
  on :
      r.enabled ≡ true
      → r.ingress_iface ≢ []
      → r.egress_iface ≢ []
      → r.ingress_iface ≢ r.egress_iface
      → IsRouting r
  off : r.enabled ≡ false → r.ingress_iface ≡ [] → r.egress_iface ≡ [] → IsRouting r

pub record IsValid (c : RuntimeConfig) : Type 0 where
  pub host : c.redis.host ≢ []
  pub port : c.redis.port ≢ []
  pub stream_key : c.redis.stream_key ≢ []
  pub writes : c.redis.max_pending_writes ≢ 0
  pub connect : c.redis.connect_timeout_ms ≢ 0
  pub drain : c.redis.drain_timeout_ms ≢ 0
  pub restart : c.supervisor.restart_delay_ms ≢ 0
  pub poll : c.supervisor.poll_interval_ms ≢ 0
  pub routing : IsRouting c.routing

pub same_text_refl : (s : Text) → same_text s s ≡ true
same_text_refl [] = refl
same_text_refl (c ∷ cs) = ground (arith, same_text_refl cs)

pub same_text-eq : (s u : Text) → same_text s u ≡ true → s ≡ u
same_text-eq [] [] h = refl
same_text-eq [] (d ∷ ds) h = absurd cc
same_text-eq (c ∷ cs) [] h = absurd cc
same_text-eq (c ∷ cs) (d ∷ ds) h = ground (arith, same_text-eq cs ds)

pub is_empty-eq : (s : Text) → is_empty s ≡ true → s ≡ []
is_empty-eq [] h = refl
is_empty-eq (c ∷ cs) h = absurd cc

pub is_empty-ne : (s : Text) → is_empty s ≡ false → s ≢ []
is_empty-ne s h e = let k : is_empty s ≡ true = rw e refl in absurd cc

same_text-ne : (s u : Text) → same_text s u ≡ false → s ≢ u
same_text-ne s u h e =
    let k : same_text s u ≡ true =
      subst (λ (x : Text). same_text s x ≡ true) e (same_text_refl s) in
    absurd cc

switch_routing-IsRouting :
    (r : RoutingOptions) → bad_routing (switch_routing r) ≡ false → IsRouting (switch_routing r)
switch_routing-IsRouting r h = elim (Bool-cases (is_empty r.ingress_iface)) [
  | inl p ↦ elim (Bool-cases (is_empty r.egress_iface)) [
    | inl q ↦ elim (Bool-cases r.enabled) [
      | inl e ↦ absurd (ground (arith, h))
      | inr e ↦ rw (p, q) (off e (is_empty-eq _ p) (is_empty-eq _ q))
    ]
    | inr q ↦ absurd (ground (arith, h))
  ]
  | inr p ↦ elim (Bool-cases (is_empty r.egress_iface)) [
    | inl q ↦ absurd (ground (arith, h))
    | inr q ↦ elim (Bool-cases (same_text r.ingress_iface r.egress_iface)) [
      | inl e ↦ absurd (ground (arith, h))
      | inr e ↦ rw p (on refl (is_empty-ne _ p) (is_empty-ne _ q) (same_text-ne _ _ e))
    ]
  ]
]

checked-IsValid :
    (c : RuntimeConfig)
    → bad_redis_text c.redis ≡ false
    → IsRouting c.routing
    → has_zero c ≡ false
    → IsValid c
checked-IsValid c h r z = record {
  host = is_empty-ne c.redis.host (ground (arith, h));
  port = is_empty-ne c.redis.port (ground (arith, h));
  stream_key = is_empty-ne c.redis.stream_key (ground (arith, h));
  writes = ground (arith, z);
  connect = ground (arith, z);
  drain = ground (arith, z);
  restart = ground (arith, z);
  poll = ground (arith, z);
  routing = r;
}

none-some : {c : RuntimeConfig} → none ≡ some c → ⊥
none-some h = cc

check_config-IsValid :
    (c : RuntimeConfig) {c' : RuntimeConfig} → check_config c ≡ some c' → IsValid c'
unfolding check_config
check_config-IsValid c {c'} e =
    let switched : RuntimeConfig = record c { routing = switch_routing c.routing } in
    elim (Bool-cases (bad_redis_text c.redis)) [
      | inl p ↦ absurd (none-some (rw (p, check_config) at e))
      | inr p ↦ elim (Bool-cases (bad_routing (switch_routing c.routing))) [
        | inl q ↦ absurd (none-some (rw (p, q, check_config) at e))
        | inr q ↦ elim (Bool-cases (has_zero switched)) [
          | inl z ↦ absurd (none-some (rw (p, q, z, check_config) at e))
          | inr z ↦
              subst IsValid (some_inj (rw (p, q, z, check_config) at e))
                (checked-IsValid switched p (switch_routing-IsRouting c.routing q) z)
        ]
      ]
    ]

-- A configuration that is loaded has a host, a port and a stream key, no zero among its limits and
-- delays, and either routes between two different interfaces or names none. Nothing is assumed of
-- the document or of the JSON library.
pub load_runtime_config-IsValid :
    {J : Type 0} (json : Json J) (root : Option J) {c : RuntimeConfig}
    → load_runtime_config json root ≡ some c
    → IsValid c
unfolding load_runtime_config
load_runtime_config-IsValid json none e = absurd (none-some e)
load_runtime_config-IsValid json (some root) {c} e = elim (Bool-cases (json.is_object root)) [
  | inr p ↦ absurd (none-some (rw (p, load_runtime_config) at e))
  | inl p ↦ elim (Option-cases (read_sections json root default_config)) [
    | inl q ↦ absurd (none-some (rw (p, q, load_runtime_config) at e))
    | inr (c', q) ↦ check_config-IsValid c' (rw (p, q, load_runtime_config) at e)
  ]
]
