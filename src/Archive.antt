-- ===== src/Archive.antt =====
-- The receivers and the store together: src/PcapReceiver.cpp and src/RedisPacketStore.cpp, from the packets captured
-- on any devices, by any threads, to the commands that the Redis connection is given.
pub mod Kept
mod Tests
use mathlib.Core.Option
use elephant_shrew.Prelude.{
  ℕ, ◌+◌, ◌*◌, ◌/◌, ◌%◌, ◌^◌, ◌<◌, ◌≡◌, List, [], ◌∷◌, Option, none, some, length, if◌then◌else◌,
  ◌>>=◌, codes, IsBytes,
}
use elephant_shrew.Config.{Text, same_text}
use elephant_shrew.Render.Read.{unhex, decimal}
use elephant_shrew.Store.{PacketInfo}
use elephant_shrew.Receiver.{Pcap, Layers, RawPacket, Receiver, on_packet_arrives}

-- a packet that the thread of a receiver was called with, on the device `device`
pub record Capture : Type 0 where
  pub device : ℕ
  pub raw : RawPacket

-- libpcap hands over bytes, fewer than 2 ^ 32
abbrev pub IsFrame : Capture → Type 0
IsFrame c = IsBytes c.raw.bytes × (length c.raw.bytes < 2 ^ 32)

-- what a reader of the stream sees of a packet
pub record Entry : Type 0 where
  pub iface : Text
  pub size : ℕ
  pub timestamp_us : ℕ
  pub bytes : List ℕ

-- the value of a field of a stream entry, which is a list of names and values in turn
abbrev pub value_of : Text → List Text → Option Text
value_of name [] = none
value_of name (n ∷ []) = none
value_of name (n ∷ v ∷ rest) = if same_text n name then some v else value_of name rest

abbrev pub expect : Text → Text → Option (Unit {0})
expect word text = if same_text text word then some tt else none

-- an XADD command as the server keeps it: after the name of the command, the key and the identifier, which the
-- server chooses, the fields; another command adds no entry
abbrev pub read_entry : List Text → Option Entry
read_entry (command ∷ key ∷ identifier ∷ fields) = do
  _ ← expect (codes "XADD") command
  _ ← expect (codes "*") identifier
  iface ← value_of (codes "iface") fields
  size ← value_of (codes "length") fields
  timestamp ← value_of (codes "timestamp_us") fields
  digits ← value_of (codes "data") fields
  some (record {
    iface = iface;
    size = decimal 0 size;
    timestamp_us = decimal 0 timestamp;
    bytes = unhex digits;
  })
read_entry _ = none

-- the stream that an XADD adds to
abbrev pub key_of : List Text → Option Text
key_of (command ∷ key ∷ rest) = expect (codes "XADD") command >>= λ _. some key
key_of _ = none

-- what should be read of a captured packet
abbrev pub entry_of : {W : Type 0} → Pcap W → Capture → Entry
entry_of pcap c = record {
  iface = pcap.name c.device;
  size = length c.raw.bytes;
  timestamp_us = (c.raw.tv_sec * 1000000 + c.raw.tv_nsec / 1000) % 2 ^ 64;
  bytes = c.raw.bytes;
}

module _ {W : Type 0} (pcap : Pcap W) (parse : List ℕ → Layers) where
  -- The packets whose records were posted, in the order of the posts. Each came to some receiver, in some state
  -- of the network, and the call handed the record to the store.
  pub data Recorded : List Capture → List PacketInfo → Type 0 where
    start : Recorded [] []
    recorded :
        {cs : List Capture} {h : List PacketInfo}
        → Recorded cs h
        → (r : Receiver) (c : Capture) (p : PacketInfo) (w w' : W) → r.device ≡ some c.device
        → on_packet_arrives pcap parse r c.raw w ≡ some (some p, w')
        → Recorded (c ∷ cs) (p ∷ h)
