-- ===== src/Store/Connect/Outcome.antt =====
-- When a store opens, and what a refused one leaves behind.
use elephant_shrew.Prelude.{
  ◌≡◌, ◌≢◌, ◌↔◌, ◌⊎◌, inl, inr, refl, sym, ◌∙◌, ap, Bool, true, false, [], ◌∷◌, none, some, arith,
  codes, Bool-cases, Option-cases,
}
use elephant_shrew.Config.{Text, is_empty, same_text, RedisStoreOptions, RuntimeConfig}
use elephant_shrew.Config.Valid.{is_empty-ne, same_text-eq}
use elephant_shrew.Cli.Effective.{IsRunnable}
use elephant_shrew.Store.{empty_store}
use elephant_shrew.Store.Connect.{
  Ping, not_sent, timed_out, failed, reply, Refusal, Io, refused, ready, check_store_options,
  validate_connection, make_store, idle_io, running_io, shut_io, no_thread,
}

-- Options that a store can be opened with.
pub record IsStorable (o : RedisStoreOptions) : Type 0 where
  pub host : o.host ≢ []
  pub port : o.port ≢ []
  pub stream_key : o.stream_key ≢ []
  pub writes : o.max_pending_writes ≢ 0
  pub connect : o.connect_timeout_ms ≢ 0
  pub drain : o.drain_timeout_ms ≢ 0

is_empty_of_ne : (s : Text) → s ≢ [] → is_empty s ≡ false
is_empty_of_ne [] h = absurd (h refl)
is_empty_of_ne (c ∷ cs) h = refl

some-ne : {r : Refusal} → some r ≢ none
some-ne h = cc

check_store_options_iff : (o : RedisStoreOptions) → (check_store_options o ≡ none) ↔ IsStorable o
unfolding check_store_options
check_store_options_iff o = (sound, complete)
  where
    complete : IsStorable o → check_store_options o ≡ none
    complete v =
        let a = is_empty_of_ne o.host v.host in
        let b = is_empty_of_ne o.port v.port in
        let c = is_empty_of_ne o.stream_key v.stream_key in
        ground (arith, v.writes, v.connect, v.drain)

    sound : check_store_options o ≡ none → IsStorable o
    sound h = record {
      host = is_empty-ne o.host (ground arith);
      port = is_empty-ne o.port (ground arith);
      stream_key = is_empty-ne o.stream_key (ground arith);
      writes = ground arith;
      connect = ground arith;
      drain = ground arith;
    }

validate_connection_iff :
    (ping : Ping) → (validate_connection ping ≡ none) ↔ (ping ≡ reply (codes "PONG"))
unfolding validate_connection
validate_connection_iff not_sent = (λ h. absurd (some-ne h), λ h. cc)
validate_connection_iff timed_out = (λ h. absurd (some-ne h), λ h. cc)
validate_connection_iff failed = (λ h. absurd (some-ne h), λ h. cc)
validate_connection_iff (reply r) = elim (Bool-cases (same_text r (codes "PONG"))) [
  | inl p ↦ (λ h. ap (λ (x : Text). reply x) (same_text-eq r (codes "PONG") p), λ h. rw p)
  | inr p ↦ (λ h. absurd (some-ne (rw p at h)), λ h. let e : r ≡ codes "PONG" = cc in rw e)
]

make_store_cases :
    (spawned : Bool) (ping : Ping) (o : RedisStoreOptions)
    → ((make_store spawned ping o ≡ ready empty_store running_io)
        × IsStorable o
        × (spawned ≡ true)
        × (ping ≡ reply (codes "PONG")))
      ⊎ ((r : Refusal) × (io : Io) × (make_store spawned ping o ≡ refused r io)
          × (io.joinable ≡ false))
unfolding make_store
make_store_cases spawned ping o = elim (Option-cases (check_store_options o)) [
  | inr (r, p) ↦ inr (r, idle_io, rw (p, make_store), refl)
  | inl p ↦ elim (Bool-cases spawned) [
    | inr q ↦ inr (no_thread, idle_io, rw (p, q, make_store), refl)
    | inl q ↦ elim (Option-cases (validate_connection ping)) [
      | inr (r, e) ↦ inr (r, shut_io, rw (p, q, e, make_store), refl)
      | inl e ↦ inl (
        rw (p, q, e, make_store),
        (check_store_options_iff o).0 p,
        q,
        (validate_connection_iff ping).0 e,
      )
    ]
  ]
]

-- The constructor returns, with an empty store and its io thread running, exactly when the options name a server
-- and limits, the thread is made and the server answers PONG; otherwise it throws, and then no thread of
-- it is left running.
pub make_store_outcome :
    (spawned : Bool) (ping : Ping) (o : RedisStoreOptions)
    → ((make_store spawned ping o ≡ ready empty_store running_io)
        ↔ (IsStorable o × (spawned ≡ true) × (ping ≡ reply (codes "PONG"))))
      × ((make_store spawned ping o ≡ ready empty_store running_io)
          ⊎ ((r : Refusal) × (io : Io) × (make_store spawned ping o ≡ refused r io)
              × (io.joinable ≡ false)))
unfolding make_store
make_store_outcome spawned ping o = elim (make_store_cases spawned ping o) [
  | inl (e, known, there, pong) ↦ ((λ _. (known, there, pong), λ _. e), inl e)
  | inr (r, io, e, left) ↦ (
    (
      λ h. absurd (refused-ready (sym e ∙ h)),
      λ known. absurd (refused-ready (sym e ∙ make_store_of_known known)),
    ),
    inr (r, io, e, left),
  )
]
  where
    refused-ready : {r : Refusal} {io : Io} → refused r io ≡ ready empty_store running_io → ⊥
    refused-ready h = cc

    make_store_of_known :
        IsStorable o × (spawned ≡ true) × (ping ≡ reply (codes "PONG"))
        → make_store spawned ping o ≡ ready empty_store running_io
    make_store_of_known (v, there, pong) =
        let ok = (check_store_options_iff o).1 v in
        let valid = (validate_connection_iff ping).1 pong in rw (ok, there, valid, make_store)

-- A configuration that takes effect, as the command line leaves it, passes the checks of the store: it
-- opens as soon as the thread is made and the server answers PONG.
pub make_store_of_runnable :
    (c : RuntimeConfig)
    → IsRunnable c
    → make_store true (reply (codes "PONG")) c.redis ≡ ready empty_store running_io
unfolding make_store
make_store_of_runnable c v =
    let ok = (check_store_options_iff c.redis).1 (record {
      host = v.host;
      port = v.port;
      stream_key = v.stream_key;
      writes = v.writes;
      connect = v.connect;
      drain = v.drain;
    }) in
    let pong = (validate_connection_iff (reply (codes "PONG"))).1 refl in rw (ok, pong, make_store)
