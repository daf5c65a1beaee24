-- ===== src/Archive/Tests.antt =====
-- One packet, from the device "eth0" to the stream.
use elephant_shrew.Prelude.{◌≡◌, refl, true, false, [], ◌∷◌, map, some, arith, codes, Sublist, All}
use elephant_shrew.Config.{Text}
use elephant_shrew.Render.{hex}
use elephant_shrew.Store.{
  PacketStore, empty_store, begin_store, reserve_slot, post_packet, run_posted,
}
use elephant_shrew.Store.Steps.{Ran, made, begun, posted, handled}
use elephant_shrew.Receiver.{on_packet_arrives, process_packet, forward, describe}
use elephant_shrew.Receiver.Tests.{net, all_open, layers, raw, recorder, entry}
use elephant_shrew.Archive.{Capture, start, recorded, read_entry, key_of, entry_of}
use elephant_shrew.Archive.Kept.{Ran-Recorded}

abbrev key : Text
key = codes "packets"

abbrev capture : Capture
capture = record { device = 3; raw = raw }

on_packet_arrives-entry :
    on_packet_arrives net layers recorder raw all_open ≡ some (some entry, all_open)
unfolding on_packet_arrives process_packet forward describe hex
on_packet_arrives-entry = refl

abbrev holding : PacketStore
holding = record empty_store { pending_writes = 1; reserved = entry ∷ [] }

begin-entry : begin_store 1 entry empty_store ≡ some (true, holding)
unfolding begin_store reserve_slot
begin-entry = refl

abbrev sent : PacketStore
sent = run_posted false key entry [] (post_packet false entry [] holding)

life : Ran 1 key (entry ∷ []) sent
unfolding post_packet
life =
    handled (posted (begun (made refl) entry true begin-entry) entry [] [] refl) false entry [] refl

Ran-Recorded_example :
    Sublist (map read_entry sent.requests) (some (entry_of net capture) ∷ [])
    × All (λ cmd. key_of cmd ≡ some key) sent.requests
Ran-Recorded_example =
    Ran-Recorded net layers key life
      (recorded start recorder capture entry all_open all_open refl on_packet_arrives-entry)
      ((omega arith, omega arith), tt)
