-- ===== src/Abi/Layout.antt =====
-- The bytes of `struct es_event` on a little-endian machine, at the offsets that the assertions at
-- the end of bpf/elephantshrew_shared.h pin down: `store_event` is the record as the BPF program
-- leaves it in the ring, `load_event` the `memcpy` by which user space reads it.
pub mod RoundTrip
use elephant_shrew.Prelude.{
  ℕ, zero, suc, ◌+◌, ◌*◌, ◌/◌, ◌%◌, ◌^◌, ◌<◌, ◌≡◌, refl, ap, ◌∙◌, List, [], ◌∷◌, ◌++◌, arith,
  length, length-append, take, drop,
}
use elephant_shrew.Abi.{Tuple, Event}

-- `n` bytes of `x`, the lowest first
abbrev pub le_bytes : ℕ → ℕ → List ℕ
le_bytes zero x = []
le_bytes (suc n) x = (x % 256) ∷ le_bytes n (x / 256)

abbrev pub le_value : List ℕ → ℕ
le_value [] = 0
le_value (b ∷ bs) = b + 256 * le_value bs

-- the number at offset `off`, `n` bytes wide
abbrev pub le_at : List ℕ → ℕ → ℕ → ℕ
le_at bs off n = le_value (take n (drop off bs))

abbrev bytes_at : List ℕ → ℕ → ℕ → List ℕ
bytes_at bs off n = take n (drop off bs)

abbrev pub sizeof_tuple : ℕ
sizeof_tuple = 48

abbrev pub sizeof_event : ℕ
sizeof_event = 216

store_vlan : List ℕ → List ℕ
store_vlan [] = []
store_vlan (v ∷ vs) = le_bytes 2 v ++ store_vlan vs

unfoldable pub store_tuple : Tuple → List ℕ
unfolding store_vlan
store_tuple t =
    t.src
    ++ (t.dst
        ++ (t.sport
            ++ (t.dport
                ++ (le_bytes 2 t.ethertype
                    ++ (store_vlan t.vlan
                        ++ (t.ip_version % 256)
                          ∷ (t.l4_proto % 256)
                          ∷ (t.flags % 256)
                          ∷ (t.vlan_count % 256)
                          ∷ le_bytes 2 t.reserved)))))

unfoldable pub load_tuple : List ℕ → Tuple
load_tuple bs = record {
  src = bytes_at bs 0 16;
  dst = bytes_at bs 16 16;
  sport = bytes_at bs 32 2;
  dport = bytes_at bs 34 2;
  ethertype = le_at bs 36 2;
  vlan = le_at bs 38 2 ∷ le_at bs 40 2 ∷ [];
  ip_version = le_at bs 42 1;
  l4_proto = le_at bs 43 1;
  flags = le_at bs 44 1;
  vlan_count = le_at bs 45 1;
  reserved = le_at bs 46 2;
}

unfoldable pub store_event : Event → List ℕ
store_event e =
    le_bytes 8 e.timestamp_mono_ns
    ++ le_bytes 8 e.sequence
    ++ le_bytes 4 e.ifindex
    ++ le_bytes 4 e.original_len
    ++ le_bytes 4 e.cpu
    ++ le_bytes 2 e.abi_version
    ++ le_bytes 2 e.record_size
    ++ le_bytes 2 e.captured_len
    ++ le_bytes 2 e.link_type
    ++ (e.direction % 256) ∷ (e.hook % 256) ∷ (e.parse_status % 256) ∷ (e.flags % 256) ∷ []
    ++ (store_tuple e.tuple ++ e.prefix)

unfoldable pub load_event : List ℕ → Event
load_event bs = record {
  timestamp_mono_ns = le_at bs 0 8;
  sequence = le_at bs 8 8;
  ifindex = le_at bs 16 4;
  original_len = le_at bs 20 4;
  cpu = le_at bs 24 4;
  abi_version = le_at bs 28 2;
  record_size = le_at bs 30 2;
  captured_len = le_at bs 32 2;
  link_type = le_at bs 34 2;
  direction = le_at bs 36 1;
  hook = le_at bs 37 1;
  parse_status = le_at bs 38 1;
  flags = le_at bs 39 1;
  tuple = load_tuple (bytes_at bs 40 48);
  prefix = bytes_at bs 88 128;
}

-- What the field widths of the struct give for nothing in C.
pub record TupleFits (t : Tuple) : Type 0 where
  pub src_size : length t.src ≡ 16
  pub dst_size : length t.dst ≡ 16
  pub sport_size : length t.sport ≡ 2
  pub dport_size : length t.dport ≡ 2
  pub vlan_size : length t.vlan ≡ 2
  pub ethertype_word : t.ethertype < 2 ^ 16
  pub ip_version_byte : t.ip_version < 256
  pub l4_proto_byte : t.l4_proto < 256
  pub flags_byte : t.flags < 256
  pub vlan_count_byte : t.vlan_count < 256
  pub reserved_word : t.reserved < 2 ^ 16

pub record EventFits (e : Event) : Type 0 where
  pub timestamp_word : e.timestamp_mono_ns < 2 ^ 64
  pub sequence_word : e.sequence < 2 ^ 64
  pub ifindex_word : e.ifindex < 2 ^ 32
  pub original_len_word : e.original_len < 2 ^ 32
  pub cpu_word : e.cpu < 2 ^ 32
  pub abi_version_word : e.abi_version < 2 ^ 16
  pub record_size_word : e.record_size < 2 ^ 16
  pub captured_len_word : e.captured_len < 2 ^ 16
  pub link_type_word : e.link_type < 2 ^ 16
  pub direction_byte : e.direction < 256
  pub hook_byte : e.hook < 256
  pub parse_status_byte : e.parse_status < 256
  pub flags_byte : e.flags < 256
  pub prefix_size : length e.prefix ≡ 128
