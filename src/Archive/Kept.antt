-- ===== src/Archive/Kept.antt =====
-- What a reader of the stream finds.
use mathlib.Core.List.{map-append}
use mathlib.Core.Path.{subst}
use elephant_shrew.Prelude.{
  ℕ, ◌+◌, ◌*◌, ◌/◌, ◌%◌, ◌^◌, ◌≡◌, refl, sym, ap, ◌∙◌, List, [], ◌∷◌, map, Option, none, some,
  some_inj, arith, length, All, Sublist, Sublist-right, Sublist-map, Sublist-All, Option-cases, inl,
  inr,
}
use elephant_shrew.Config.{Text}
use elephant_shrew.Render.{to_string}
use elephant_shrew.Render.Read.{unhex, decimal, to_string_lem}
use elephant_shrew.Store.{PacketInfo, PacketStore, xadd}
use elephant_shrew.Store.Steps.{Ran}
use elephant_shrew.Store.Order.{Ran-IsOrdered}
use elephant_shrew.Receiver.{
  Pcap, Layers, RawPacket, Receiver, Processed, stored, unrecorded, thrown, describe,
  process_packet, on_packet_arrives,
}
use elephant_shrew.Receiver.Packets.{process_packet-stored, describe-IsWhole}
use elephant_shrew.Archive.{
  Capture, IsFrame, read_entry, key_of, entry_of, Recorded, start, recorded,
}

read_entry-xadd :
    (key : Text) (p : PacketInfo)
    → (read_entry (xadd key p)
        ≡ some (record {
          iface = p.iface;
          size = decimal 0 (to_string p.length);
          timestamp_us = decimal 0 (to_string p.timestamp_us);
          bytes = unhex p.data_hex;
        }))
      × (key_of (xadd key p) ≡ some key)
unfolding xadd
read_entry-xadd key p = (refl, refl)

-- the command for a packet is read back as the packet
read_entry-describe :
    {W : Type 0} (pcap : Pcap W) (key : Text) (l : Layers) (c : Capture)
    → IsFrame c
    → read_entry (xadd key (describe (pcap.name c.device) l c.raw)) ≡ some (entry_of pcap c)
unfolding describe
read_entry-describe pcap key l c (bytes, small) =
    let v = describe-IsWhole (pcap.name c.device) l c.raw bytes small in
    let size = to_string_lem (length c.raw.bytes % 2 ^ 32) (omega arith) in
    let time =
      to_string_lem ((c.raw.tv_sec * 1000000 + c.raw.tv_nsec / 1000) % 2 ^ 64) (omega arith) in
    (read_entry-xadd key (describe (pcap.name c.device) l c.raw)).0
    ∙ rw (size, time, v.content, v.size)

on_packet_arrives-stored :
    {W : Type 0} (pcap : Pcap W) (parse : List ℕ → Layers) (r : Receiver) (raw : RawPacket) (w : W)
    {p : PacketInfo} {w' : W}
    → on_packet_arrives pcap parse r raw w ≡ some (some p, w')
    → process_packet pcap parse r raw w ≡ some (stored p, w')
unfolding on_packet_arrives
on_packet_arrives-stored {W} pcap parse r raw w {p} {w'} h =
    elim (Option-cases (process_packet pcap parse r raw w)) [
      | inl e ↦ absurd (nothing (rw (e, on_packet_arrives) at h))
      | inr ((o, u), e) ↦ e ∙ handed o u (rw (e, on_packet_arrives) at h)
    ]
  where
    nothing : ◌≡◌ {A = Option (Option PacketInfo × W)} none (some (some p, w')) → ⊥
    nothing h = cc

    passed_on : Processed × W → Option (Option PacketInfo × W)
    passed_on (stored q, u) = some (some q, u)
    passed_on (unrecorded, u) = some (none, u)
    passed_on (thrown f, u) = some (none, u)

    handed :
        (o : Processed) (u : W)
        → passed_on (o, u) ≡ some (some p, w')
        → ◌≡◌ {A = Option (Processed × W)} (some (o, u)) (some (stored p, w'))
    handed (stored q) u h = cc
    handed unrecorded u h = cc
    handed (thrown f) u h = cc

module _ {W : Type 0} (pcap : Pcap W) (parse : List ℕ → Layers) (key : Text) where
  Recorded-map :
      {cs : List Capture} {h : List PacketInfo}
      → Recorded pcap parse cs h
      → All IsFrame cs
      → map read_entry (map (xadd key) h) ≡ map (λ c. some (entry_of pcap c)) cs
  Recorded-map start v = refl
  Recorded-map (recorded {cs} {h} t r c p w w' d e) (frame, frames) =
      let (d', e', _, _, _, same) =
        process_packet-stored pcap parse r c.raw w
          (on_packet_arrives-stored pcap parse r c.raw w e) in
      let device : d' ≡ c.device = some_inj (sym e' ∙ d) in
      let named : describe (pcap.name c.device) (parse c.raw.bytes) c.raw ≡ p =
        subst (λ n. describe (pcap.name n) (parse c.raw.bytes) c.raw ≡ p) device same in
      let first : read_entry (xadd key p) ≡ some (entry_of pcap c) =
        ap (λ q. read_entry (xadd key q)) (sym named)
        ∙ read_entry-describe pcap key (parse c.raw.bytes) c frame in
      let rest = Recorded-map t frames in λ i. first i ∷ rest i

  keyed : (h : List PacketInfo) → All (λ cmd. key_of cmd ≡ some key) (map (xadd key) h)
  keyed [] = tt
  keyed (p ∷ h) = ((read_entry-xadd key p).1, keyed h)

  -- Whatever packets are captured on whatever devices, and in every life of the store that their records are posted to:
  -- each command given to the connection is an XADD to the configured stream, and what is read back of the commands,
  -- in order, are the packets in the order of the posts, some left out: the name of the device, the length, the time
  -- and the very bytes. Premise: a packet is of bytes, fewer than 2 ^ 32.
  pub Ran-Recorded :
      {max : ℕ} {cs : List Capture} {h : List PacketInfo} {s : PacketStore}
      → Ran max key h s
      → Recorded pcap parse cs h
      → All IsFrame cs
      → Sublist (map read_entry s.requests) (map (λ c. some (entry_of pcap c)) cs)
        × All (λ cmd. key_of cmd ≡ some key) s.requests
  Ran-Recorded {s = s} life t frames =
      let o = Ran-IsOrdered life in
      let all = map-append (xadd key) o.done s.posted in
      let sent =
        subst (Sublist s.requests) (sym (ap (map (xadd key)) o.split ∙ all))
          (Sublist-right (map (xadd key) s.posted) o.sent) in
      (
        subst (Sublist (map read_entry s.requests)) (Recorded-map t frames)
            (Sublist-map read_entry sent),
        Sublist-All (λ cmd. key_of cmd ≡ some key) o.sent (keyed o.done),
      )
