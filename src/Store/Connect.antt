-- ===== src/Store/Connect.antt =====
-- The constructor of `RedisPacketStore`, with `ValidateConnection`.
pub mod Outcome
use elephant_shrew.Prelude.{
  ℕ, ◌≡◌, ◌≢◌, ◌↔◌, refl, Bool, true, false, List, [], ◌∷◌, Option, none, some, arith, ◌==◌,
  if◌then◌else◌, codes,
}
use elephant_shrew.Config.{Text, is_empty, same_text, RedisStoreOptions}
use elephant_shrew.Store.{PacketStore, empty_store, stop_accepting, is_drained}

-- What becomes of the PING: the promise is set by the answer, or by an exception before it, or not in
-- time. `reply` is the answer's text.
pub data Ping : Type 0 where
  not_sent : Ping
  timed_out : Ping
  failed : Ping
  reply : Text → Ping

-- the exceptions of the constructor
pub data Refusal : Type 0 where
  no_host no_port no_stream_key no_pending_writes no_connect_timeout no_drain_timeout : Refusal
  no_thread : Refusal
  not_connected : Refusal
  unexpected_reply : Text → Refusal

-- the io thread and the connection that it serves
pub record Io : Type 0 where
  pub joinable : Bool
  pub cancelled : Bool
  pub stopped : Bool

-- the result of a constructor, with what it leaves running
pub data Made : Type 0 where
  refused : Refusal → Io → Made
  ready : PacketStore → Io → Made

-- the checks of the options, in their order
unfoldable pub check_store_options : RedisStoreOptions → Option Refusal
check_store_options o =
    if is_empty o.host
    then some no_host
    else if is_empty o.port
    then some no_port
    else if is_empty o.stream_key
    then some no_stream_key
    else if o.max_pending_writes == 0
    then some no_pending_writes
    else if o.connect_timeout_ms == 0
    then some no_connect_timeout
    else if o.drain_timeout_ms == 0
    then some no_drain_timeout
    else none

-- `ValidateConnection`; `none` is a return
unfoldable pub validate_connection : Ping → Option Refusal
validate_connection not_sent = some not_connected
validate_connection timed_out = some not_connected
validate_connection failed = some not_connected
validate_connection (reply r) =
    if same_text r (codes "PONG") then none else some (unexpected_reply r)

abbrev pub idle_io : Io
idle_io = record { joinable = false; cancelled = false; stopped = false }

abbrev pub running_io : Io
running_io = record { joinable = true; cancelled = false; stopped = false }

-- `conn_.cancel(); ioc_.stop();` and the join
abbrev pub shut_io : Io
shut_io = record { joinable = false; cancelled = true; stopped = true }

-- the constructor; `spawned` is false where `std::thread` throws
unfoldable pub make_store : Bool → Ping → RedisStoreOptions → Made
make_store spawned ping o = elim (check_store_options o) [
  | some r ↦ refused r idle_io
  | none ↦
      if spawned
      then elim (validate_connection ping) [
        | some r ↦ refused r shut_io
        | none ↦ ready empty_store running_io
      ]
      else refused no_thread idle_io
]
