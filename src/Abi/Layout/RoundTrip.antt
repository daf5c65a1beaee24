-- ===== src/Abi/Layout/RoundTrip.antt =====
-- Reading back what was stored.
use elephant_shrew.Prelude.{
  sym, length-append, ℕ, zero, suc, ◌+◌, ◌%◌, ◌^◌, ◌<◌, ◌≡◌, refl, ap, ◌∙◌, List, [], ◌∷◌, ◌++◌,
  arith, length, take, drop,
}
use elephant_shrew.Abi.{Tuple, Event}
use elephant_shrew.Abi.Layout.{
  sizeof_event, le_bytes, le_value, le_at, store_vlan, store_tuple, load_tuple, store_event,
  load_event, TupleFits, EventFits,
}

two : (x : ℕ) → x < 2 ^ 16 → le_value (le_bytes 2 x) ≡ x
two x h = omega arith

four : (x : ℕ) → x < 2 ^ 32 → le_value (le_bytes 4 x) ≡ x
four x h = omega arith

eight : (x : ℕ) → x < 2 ^ 64 → le_value (le_bytes 8 x) ≡ x
eight x h = omega arith

one : (x : ℕ) → x < 256 → le_value ((x % 256) ∷ []) ≡ x
one x h = omega arith

take-append_of_length : (n : ℕ) (xs ys : List ℕ) → length xs ≡ n → take n (xs ++ ys) ≡ xs
take-append_of_length zero [] ys h = refl
take-append_of_length zero (x ∷ xs) ys h = absurd (omega arith)
take-append_of_length (suc n) [] ys h = absurd (omega arith)
take-append_of_length (suc n) (x ∷ xs) ys h =
    ap (◌∷◌ x) (take-append_of_length n xs ys (omega arith))

take_of_length : (n : ℕ) (xs : List ℕ) → length xs ≡ n → take n xs ≡ xs
take_of_length zero [] h = refl
take_of_length zero (x ∷ xs) h = absurd (omega arith)
take_of_length (suc n) [] h = absurd (omega arith)
take_of_length (suc n) (x ∷ xs) h = ap (◌∷◌ x) (take_of_length n xs (omega arith))

drop-append_of_length :
    (n k : ℕ) (xs ys : List ℕ) → length xs ≡ n → drop (n + k) (xs ++ ys) ≡ drop k ys
drop-append_of_length zero k [] ys h = ap (λ m. drop m ys) (omega arith)
drop-append_of_length zero k (x ∷ xs) ys h = absurd (omega arith)
drop-append_of_length (suc n) k [] ys h = absurd (omega arith)
drop-append_of_length (suc n) k (x ∷ xs) ys h =
    ap {A = ℕ} (λ m. drop m (x ∷ xs ++ ys)) {x = suc n + k} {y = suc (n + k)} (omega arith)
    ∙ drop-append_of_length n k xs ys (omega arith)

pub pair_of_length : (xs : List ℕ) → length xs ≡ 2 → (a : ℕ) × (b : ℕ) × (xs ≡ a ∷ b ∷ [])
pair_of_length (a ∷ b ∷ []) h = (a, b, refl)
pair_of_length [] h = absurd (omega arith)
pair_of_length (a ∷ []) h = absurd (omega arith)
pair_of_length (a ∷ b ∷ c ∷ r) h = absurd (omega arith)

-- the two VLAN identifiers are words too
abbrev pub VlanFits : Tuple → Type 0
VlanFits t = (v : ℕ) × (v' : ℕ) × (t.vlan ≡ v ∷ v' ∷ []) × (v < 2 ^ 16) × (v' < 2 ^ 16)

-- past the two addresses everything stands at a fixed offset
module _ (src dst rest : List ℕ) (hs : length src ≡ 16) (hd : length dst ≡ 16) where
  past_addresses : (k : ℕ) → drop (16 + (16 + k)) (src ++ (dst ++ rest)) ≡ drop k rest
  past_addresses k =
      drop-append_of_length 16 (16 + k) src (dst ++ rest) hs
      ∙ drop-append_of_length 16 k dst rest hd

  load_tuple_addresses : load_tuple (src ++ (dst ++ rest)) ≡ record {
    src = src;
    dst = dst;
    sport = take 2 rest;
    dport = take 2 (drop 2 rest);
    ethertype = le_at rest 4 2;
    vlan = le_at rest 6 2 ∷ le_at rest 8 2 ∷ [];
    ip_version = le_at rest 10 1;
    l4_proto = le_at rest 11 1;
    flags = le_at rest 12 1;
    vlan_count = le_at rest 13 1;
    reserved = le_at rest 14 2;
  }
  unfolding load_tuple
  load_tuple_addresses = λ i. record {
    src = take-append_of_length 16 src (dst ++ rest) hs i;
    dst =
        (ap (take 16) (drop-append_of_length 16 0 src (dst ++ rest) hs)
            ∙ take-append_of_length 16 dst rest hd)
          i;
    sport = take 2 (past_addresses 0 i);
    dport = take 2 (past_addresses 2 i);
    ethertype = le_value (take 2 (past_addresses 4 i));
    vlan = le_value (take 2 (past_addresses 6 i)) ∷ le_value (take 2 (past_addresses 8 i)) ∷ [];
    ip_version = le_value (take 1 (past_addresses 10 i));
    l4_proto = le_value (take 1 (past_addresses 11 i));
    flags = le_value (take 1 (past_addresses 12 i));
    vlan_count = le_value (take 1 (past_addresses 13 i));
    reserved = le_value (take 2 (past_addresses 14 i));
  }

-- with the short arrays written out
load_tuple-store_tuple_flat :
    (t : Tuple) (a b c d v v' : ℕ)
    → TupleFits t
    → v < 2 ^ 16
    → v' < 2 ^ 16
    → let t' = record t { sport = a ∷ b ∷ []; dport = c ∷ d ∷ []; vlan = v ∷ v' ∷ [] } in
      load_tuple (store_tuple t') ≡ t'
unfolding store_tuple
load_tuple-store_tuple_flat t a b c d v v' f hv hv' =
    load_tuple_addresses t.src t.dst _ f.src_size f.dst_size ∙ λ i. record t {
      sport = a ∷ b ∷ [];
      dport = c ∷ d ∷ [];
      ethertype = two t.ethertype f.ethertype_word i;
      vlan = two v hv i ∷ two v' hv' i ∷ [];
      ip_version = one t.ip_version f.ip_version_byte i;
      l4_proto = one t.l4_proto f.l4_proto_byte i;
      flags = one t.flags f.flags_byte i;
      vlan_count = one t.vlan_count f.vlan_count_byte i;
      reserved = two t.reserved f.reserved_word i;
    }

load_tuple-store_tuple : (t : Tuple) → TupleFits t → VlanFits t → load_tuple (store_tuple t) ≡ t
load_tuple-store_tuple t f (v, v', ev, hv, hv') =
    let (a, b, es) = pair_of_length t.sport f.sport_size in
    let (c, d, ed) = pair_of_length t.dport f.dport_size in
    let whole : record t { sport = a ∷ b ∷ []; dport = c ∷ d ∷ []; vlan = v ∷ v' ∷ [] } ≡ t =
      λ i. record t { sport = sym es i; dport = sym ed i; vlan = sym ev i } in
    sym (ap (λ (u : Tuple). load_tuple (store_tuple u)) whole)
    ∙ load_tuple-store_tuple_flat t a b c d v v' f hv hv'
    ∙ whole

length-store_vlan : (vs : List ℕ) → length (store_vlan vs) ≡ length vs + length vs
unfolding store_vlan
length-store_vlan [] = refl
length-store_vlan (v ∷ vs) = omega (arith, length-store_vlan vs)

length-store_tuple : (t : Tuple) → TupleFits t → VlanFits t → length (store_tuple t) ≡ 48
unfolding store_tuple
length-store_tuple t f fv = omega (arith, length-append {0}, length-store_vlan t.vlan)

-- A record that fits its fields is read back as it was stored, and takes 216 bytes.
pub load_event-store_event :
    (e : Event)
    → EventFits e
    → TupleFits e.tuple
    → VlanFits e.tuple
    → (load_event (store_event e) ≡ e) × (length (store_event e) ≡ sizeof_event)
unfolding load_event store_event
load_event-store_event e f ft fv = (
  (λ i. record {
    timestamp_mono_ns = eight e.timestamp_mono_ns f.timestamp_word i;
    sequence = eight e.sequence f.sequence_word i;
    ifindex = four e.ifindex f.ifindex_word i;
    original_len = four e.original_len f.original_len_word i;
    cpu = four e.cpu f.cpu_word i;
    abi_version = two e.abi_version f.abi_version_word i;
    record_size = two e.record_size f.record_size_word i;
    captured_len = two e.captured_len f.captured_len_word i;
    link_type = two e.link_type f.link_type_word i;
    direction = one e.direction f.direction_byte i;
    hook = one e.hook f.hook_byte i;
    parse_status = one e.parse_status f.parse_status_byte i;
    flags = one e.flags f.flags_byte i;
    tuple =
        (ap load_tuple (
              take-append_of_length 48 (store_tuple e.tuple) e.prefix
                (length-store_tuple e.tuple ft fv))
            ∙ load_tuple-store_tuple e.tuple ft fv)
          i;
    prefix =
        (ap (take 128) (
              drop-append_of_length 48 0 (store_tuple e.tuple) e.prefix
                (length-store_tuple e.tuple ft fv))
            ∙ take_of_length 128 e.prefix f.prefix_size)
          i;
  }),
  omega (arith, length-append {0}, length-store_tuple e.tuple ft fv),
)
