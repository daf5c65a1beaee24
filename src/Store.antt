-- ===== src/Store.antt =====
-- src/RedisPacketStore.cpp, int/IPacketStore.hpp: packets written to a Redis stream. Boost.Asio and
-- Boost.Redis are parameters: whether a post, a request or an answer comes through is chosen from
-- outside. What a thread does under the mutex is one action.
pub mod Steps
pub mod Drain
pub mod Order
pub mod Connect
mod Tests
use elephant_shrew.Prelude.{
  ℕ, ◌+◌, ◌-◌, Bool, true, false, not, ◌||◌, List, [], ◌∷◌, ◌++◌, Option, none, some, ltb, ◌==◌,
  if◌then◌else◌, codes,
}
use elephant_shrew.Config.{Text, is_empty, same_text, RedisStoreOptions}
use elephant_shrew.Render.{to_string}

pub record PacketInfo : Type 0 where
  pub iface : Text
  pub src_ip : Text
  pub dst_ip : Text
  pub protocol : Text
  pub length : ℕ
  pub data_hex : Text
  pub timestamp_us : ℕ

-- The packets on their way: `reserved` between the reservation of a slot and the post, `posted` in
-- the queue of the io thread, `executing` at the server. `requests` are the commands given to the
-- connection so far, in order.
pub record PacketStore : Type 0 where
  pub pending_writes : ℕ
  pub accepting_writes : Bool
  pub reserved : List PacketInfo
  pub posted : List PacketInfo
  pub executing : List PacketInfo
  pub requests : List (List Text)

abbrev pub empty_store : PacketStore
empty_store = record {
  pending_writes = 0;
  accepting_writes = true;
  reserved = [];
  posted = [];
  executing = [];
  requests = [];
}

-- `ReservePendingWriteSlot`, when its thread runs under the mutex; `none` is a wait that goes on
unfoldable pub reserve_slot : ℕ → PacketStore → Option (Bool × PacketStore)
reserve_slot max s =
    if not (ltb s.pending_writes max || not s.accepting_writes)
    then none
    else if not s.accepting_writes
    then some (false, s)
    else some (true, record s { pending_writes = s.pending_writes + 1 })

-- `CompletePendingWrite`
unfoldable pub complete_write : PacketStore → PacketStore
complete_write s =
    if ltb 0 s.pending_writes then record s { pending_writes = s.pending_writes - 1 } else s

-- the arguments of the XADD command
unfoldable pub xadd : Text → PacketInfo → List Text
xadd stream_key p =
    codes "XADD"
    ∷ stream_key
    ∷ codes "*"
    ∷ codes "iface"
    ∷ p.iface
    ∷ codes "src_ip"
    ∷ p.src_ip
    ∷ codes "dst_ip"
    ∷ p.dst_ip
    ∷ codes "protocol"
    ∷ p.protocol
    ∷ codes "length"
    ∷ to_string p.length
    ∷ codes "timestamp_us"
    ∷ to_string p.timestamp_us
    ∷ codes "data"
    ∷ p.data_hex
    ∷ []

-- `Store` up to the post: the result is `none` while the thread waits, and otherwise says whether the
-- packet has a slot
unfoldable pub begin_store : ℕ → PacketInfo → PacketStore → Option (Bool × PacketStore)
begin_store max p s = elim (reserve_slot max s) [
  | none ↦ none
  | some (false, s') ↦ some (false, s')
  | some (true, s') ↦ some (true, record s' { reserved = p ∷ s'.reserved })
]

-- the post of a packet out of `reserved`; `throws` is an exception of `boost::asio::post`
unfoldable pub post_packet : Bool → PacketInfo → List PacketInfo → PacketStore → PacketStore
post_packet throws p others s =
    if throws
    then complete_write (record s { reserved = others })
    else record s { reserved = others; posted = s.posted ++ p ∷ [] }

-- the handler on the io thread, with the first packet of the queue; `throws` is an exception before
-- the request is under way
unfoldable pub run_posted : Bool → Text → PacketInfo → List PacketInfo → PacketStore → PacketStore
run_posted throws stream_key p others s =
    if throws then complete_write (record s { posted = others }) else record s {
      posted = others;
      executing = s.executing ++ p ∷ [];
      requests = s.requests ++ xadd stream_key p ∷ [];
    }

-- the completion of `async_exec`, with or without an error, for a packet out of `executing`
unfoldable pub finish_write : List PacketInfo → PacketStore → PacketStore
finish_write others s = complete_write (record s { executing = others })

-- the start of the destructor
unfoldable pub stop_accepting : PacketStore → PacketStore
stop_accepting s = record s { accepting_writes = false }

-- the predicate of `WaitForPendingWrites`
abbrev pub is_drained : PacketStore → Bool
is_drained s = s.pending_writes == 0
