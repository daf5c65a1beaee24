-- ===== src/Store/Tests.antt =====
-- One packet through a store with room for one, and the theorems at it.
use elephant_shrew.Prelude.{
  ◌↔◌, zero, suc, ◌≡◌, ◌≤◌, ◌*◌, ◌⊎◌, refl, Bool, true, false, [], ◌∷◌, none, some, codes,
}
use elephant_shrew.Config.{Text, RedisStoreOptions, default_config}
use elephant_shrew.Store.{
  PacketInfo, PacketStore, empty_store, reserve_slot, begin_store, post_packet, run_posted,
  stop_accepting, is_drained, xadd,
}
use elephant_shrew.Render.{to_string, digits}
use elephant_shrew.Store.Steps.{Ran, made, begun, posted, IsCounted, Ran-IsCounted}
use elephant_shrew.Store.Drain.{Work, handle, Draining, here, moved, Draining_bounded}
use elephant_shrew.Store.Order.{IsOrdered, Ran-IsOrdered}
use elephant_shrew.Store.Connect.{
  reply, timed_out, Io, Refusal, not_connected, refused, ready, make_store, running_io, shut_io,
  check_store_options, validate_connection,
}
use elephant_shrew.Store.Connect.Outcome.{IsStorable, make_store_outcome}

abbrev packet : PacketInfo
packet = record {
  iface = codes "eth0";
  src_ip = codes "10.0.0.1";
  dst_ip = codes "10.0.0.2";
  protocol = codes "UDP";
  length = 2;
  data_hex = codes "00ff";
  timestamp_us = 17;
}

abbrev key : Text
key = codes "packets"

abbrev holding : PacketStore
holding = record empty_store { pending_writes = 1; reserved = packet ∷ [] }

begin-packet : begin_store 1 packet empty_store ≡ some (true, holding)
unfolding begin_store reserve_slot
begin-packet = refl

-- a second packet waits for the slot
begin-waits : begin_store 1 packet holding ≡ none
unfolding begin_store reserve_slot
begin-waits = refl

xadd-packet :
    xadd key packet
    ≡ codes "XADD"
      ∷ key
      ∷ codes "*"
      ∷ codes "iface"
      ∷ codes "eth0"
      ∷ codes "src_ip"
      ∷ codes "10.0.0.1"
      ∷ codes "dst_ip"
      ∷ codes "10.0.0.2"
      ∷ codes "protocol"
      ∷ codes "UDP"
      ∷ codes "length"
      ∷ codes "2"
      ∷ codes "timestamp_us"
      ∷ codes "17"
      ∷ codes "data"
      ∷ codes "00ff"
      ∷ []
unfolding xadd to_string digits
xadd-packet = refl

abbrev queued : PacketStore
queued = record empty_store { pending_writes = 1; posted = packet ∷ [] }

ran : Ran 1 key (packet ∷ []) queued
unfolding post_packet
ran = posted (begun (made refl) packet true begin-packet) packet [] [] refl

Ran-IsCounted_example : IsCounted 1 queued
Ran-IsCounted_example = Ran-IsCounted ran

Ran-IsOrdered_example : IsOrdered key (packet ∷ []) queued
Ran-IsOrdered_example = Ran-IsOrdered ran

abbrev asked : PacketStore
asked = record queued {
  posted = [];
  executing = packet ∷ [];
  requests = xadd key packet ∷ [];
  accepting_writes = false;
}

draining : Draining 1 key (stop_accepting queued) (suc zero) asked
unfolding run_posted stop_accepting
draining = moved here (handle false packet [] refl)

Draining_bounded_example :
    (suc zero ≤ 3 * 1)
    × (asked.accepting_writes ≡ false)
    × ((is_drained asked ≡ true) ⊎ ((u : PacketStore) × Work key asked u))
Draining_bounded_example = Draining_bounded ran draining

abbrev options : RedisStoreOptions
options = default_config.redis

make-timed_out : make_store true timed_out options ≡ refused not_connected shut_io
unfolding make_store check_store_options validate_connection
make-timed_out = refl

make_store_outcome_example :
    ((make_store true timed_out options ≡ ready empty_store running_io)
      ↔ (IsStorable options × (◌≡◌ {A = Bool} true true) × (timed_out ≡ reply (codes "PONG"))))
    × ((make_store true timed_out options ≡ ready empty_store running_io)
        ⊎ ((r : Refusal) × (io : Io) × (make_store true timed_out options ≡ refused r io)
            × (io.joinable ≡ false)))
make_store_outcome_example = make_store_outcome true timed_out options
