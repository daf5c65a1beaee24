-- ===== src/Receiver/Packets.antt =====
-- What becomes of a captured packet.
use mathlib.Core.Path.{subst}
use elephant_shrew.Prelude.{
  [], ◌∷◌, ◌%◌, ℕ, ◌^◌, ◌<◌, ◌≡◌, refl, ap, ◌∙◌, true, List, Option, none, some, some_inj, arith,
  inl, inr, Option-cases, length, take, IsBytes, Bool-cases,
}
use elephant_shrew.Config.{Text}
use elephant_shrew.Render.{hex}
use elephant_shrew.Render.Read.{unhex, hex_lem}
use elephant_shrew.Store.{PacketInfo}
use elephant_shrew.Receiver.{
  Pcap, Layers, RawPacket, Receiver, Failure, Processed, thrown, unrecorded, stored, describe,
  forward, process_packet,
}

take_all : {A : Type 0} (xs : List A) → take (length xs) xs ≡ xs
take_all [] = refl
take_all (x ∷ xs) = ap (λ ys. x ∷ ys) (take_all xs)

-- A record of a packet that holds all of it.
pub record IsWhole (iface : Text) (raw : RawPacket) (p : PacketInfo) : Type 0 where
  pub iface_name : p.iface ≡ iface
  pub size : p.length ≡ length raw.bytes
  pub content : unhex p.data_hex ≡ raw.bytes

pub describe-IsWhole :
    (iface : Text) (l : Layers) (raw : RawPacket)
    → IsBytes raw.bytes
    → length raw.bytes < 2 ^ 32
    → IsWhole iface raw (describe iface l raw)
unfolding describe
describe-IsWhole iface l raw bytes small =
    let e : length raw.bytes % 2 ^ 32 ≡ length raw.bytes = omega arith in
    record {
      iface_name = refl;
      size = e;
      content =
          ap (λ (n : ℕ). unhex (hex (take n raw.bytes))) e
          ∙ (ap (λ (bs : List ℕ). unhex (hex bs)) (take_all raw.bytes)
              ∙ (hex_lem raw.bytes bytes).0);
    }

none-some : {A : Type 0} {a : A} → none ≡ some a → ⊥
none-some h = cc

module _ {W : Type 0} (pcap : Pcap W) (parse : List ℕ → Layers) (r : Receiver) (raw : RawPacket)
    (w : W) where
  -- what the network went through: the packet was sent to the route device, if there is one
  abbrev pub WasForwarded : Option ℕ → W → Type 0
  WasForwarded none w' = w' ≡ w
  WasForwarded (some e) w' = pcap.send_packet e raw.bytes w ≡ (true, w')

  forwarded-WasForwarded :
      (o : Option ℕ) → (forward pcap o raw w).0 ≡ true → WasForwarded o (forward pcap o raw w).1
  unfolding forward
  forwarded-WasForwarded none h = refl
  forwarded-WasForwarded (some e) h = λ i. (h i, (pcap.send_packet e raw.bytes w).1)

  -- where a packet is handed to the store, and with which record
  pub process_packet-stored :
      {p : PacketInfo} {w' : W}
      → process_packet pcap parse r raw w ≡ some (stored p, w')
      → (d : ℕ) × (r.device ≡ some d)
        × (r.record_packets ≡ true)
        × (r.store ≡ true)
        × WasForwarded r.route_device w'
        × (describe (pcap.name d) (parse raw.bytes) raw ≡ p)
  unfolding process_packet
  process_packet-stored {p} {w'} h = elim (Option-cases r.device) [
    | inl e ↦ absurd (none-some (rw (e, process_packet) at h))
    | inr (d, e) ↦ elim (Bool-cases (forward pcap r.route_device raw w).0) [
      | inr f ↦ absurd (thrown-stored (rw (e, f, process_packet) at h))
      | inl f ↦ elim (Bool-cases r.record_packets) [
        | inr g ↦ absurd (unrecorded-stored (rw (e, f, g, process_packet) at h))
        | inl g ↦ elim (Bool-cases r.store) [
          | inr s ↦ absurd (thrown-stored (rw (e, f, g, s, process_packet) at h))
          | inl s ↦
              let k = some_inj (rw (e, f, g, s, process_packet) at h) in
              let same : describe (pcap.name d) (parse raw.bytes) raw ≡ p =
                ap (λ (q : Processed × W). recorded q.0) k in
              (
                d,
                e,
                g,
                s,
                subst (WasForwarded r.route_device) (ap (λ (q : Processed × W). q.1) k)
                    (forwarded-WasForwarded r.route_device f),
                same,
              )
        ]
      ]
    ]
  ]
    where
      thrown-stored :
          {f : Failure} {u : W}
          → ◌≡◌ {A = Option (Processed × W)} (some (thrown f, u)) (some (stored p, w'))
          → ⊥
      thrown-stored h = cc

      unrecorded-stored :
          {u : W}
          → ◌≡◌ {A = Option (Processed × W)} (some (unrecorded, u)) (some (stored p, w'))
          → ⊥
      unrecorded-stored h = cc

      recorded : Processed → PacketInfo
      recorded (stored q) = q
      recorded (thrown f) = p
      recorded unrecorded = p

  -- A packet is handed to the store only where recording is on, there is a store, and the packet was sent
  -- on first, if it has to be; and then the record names the device, has the length of the packet,
  -- and its hex digits are the packet's bytes. Premises: the packet is of bytes, fewer than 2 ^ 32.
  pub process_packet-IsWhole :
      {p : PacketInfo} {w' : W}
      → IsBytes raw.bytes
      → length raw.bytes < 2 ^ 32
      → process_packet pcap parse r raw w ≡ some (stored p, w')
      → (d : ℕ) × (r.device ≡ some d)
        × (r.record_packets ≡ true)
        × (r.store ≡ true)
        × WasForwarded r.route_device w'
        × IsWhole (pcap.name d) raw p
  process_packet-IsWhole bytes small h =
      let (d, e, g, s, f, same) = process_packet-stored h in
      (
        d,
        e,
        g,
        s,
        f,
        subst (IsWhole (pcap.name d) raw) same
            (describe-IsWhole (pcap.name d) (parse raw.bytes) raw bytes small),
      )
