-- ===== src/Parser/Wire/Frame.antt =====
-- A frame with its VLAN tags, and what `es_parse` takes from it.
use elephant_shrew.Prelude.{
  ℕ, ◌+◌, ◌^◌, ◌≤◌, ◌<◌, ◌≡◌, refl, Bool, true, false, List, [], ◌∷◌, ◌++◌, some, arith, length,
  replicate, if◌then◌else◌,
}
use elephant_shrew.Abi.{Tuple, zero_tuple, parse_ok, t_l2_valid}
use elephant_shrew.Parser.{push_vlan, parse_frame, clip, es_parse}
use elephant_shrew.Parser.Reader.{next, copy_into, outcome, ◌>>=◌}
use elephant_shrew.Parser.Wire.{Word, es_be16-Word, check-es_need}
use elephant_shrew.Parser.Wire.Header
use elephant_shrew.Parser.Wire.Layer.{
  Layer, segment, payload, arp, type_of, IsLayer, layered, parse_network-IsLayer,
}
use elephant_shrew.Parser.Wire.Tagged.{
  Tagged, vlan_of, with_vids, push_vlan-with_vids, vlan_loop-Tagged,
}

-- what a frame says: the control words of its tags, and what follows them
pub record Frame : Type 0 where
  pub vids : List ℕ
  pub layer : Layer

-- the frame of `len` bytes, of which `cap` are there
pub record IsFrame (p : List ℕ) (cap len : ℕ) (f : Frame) : Type 0 where
  pub ethernet : 14 ≤ cap
  pub ethernet_in_frame : 14 ≤ len
  pub first_type : ℕ
  pub first_word : Word p 12 first_type
  pub off : ℕ
  pub tags : Tagged p cap len 2 first_type 14 f.vids (type_of f.layer) off
  pub content : IsLayer p cap len off f.layer

-- the control word that the network card has stripped
abbrev pub stripped_vids : Bool → ℕ → List ℕ
stripped_vids stripped vid = if stripped then vid ∷ [] else []

-- the tuple of a frame, without its tags: the link layer and the addresses are valid, with a segment the ports too
abbrev pub fields_of : Layer → Tuple
fields_of (segment n sport dport) = record zero_tuple {
  src = copy_into (Header.src n) (replicate 16 0);
  dst = copy_into (Header.dst n) (replicate 16 0);
  sport = copy_into sport (replicate 2 0);
  dport = copy_into dport (replicate 2 0);
  ip_version = Header.version n;
  l4_proto = Header.proto n;
  flags = 7;
}
fields_of (payload n) = record zero_tuple {
  src = copy_into (Header.src n) (replicate 16 0);
  dst = copy_into (Header.dst n) (replicate 16 0);
  ip_version = Header.version n;
  l4_proto = Header.proto n;
  flags = 3;
}
fields_of (arp sender target) = record zero_tuple {
  src = copy_into sender (replicate 16 0);
  dst = copy_into target (replicate 16 0);
  ip_version = 4;
  flags = 3;
}

abbrev pub with_layer : List ℕ → Layer → Tuple
with_layer vids l = record (fields_of l) {
  ethertype = type_of l;
  vlan = vlan_of vids;
  vlan_count = length vids;
}

abbrev pub tuple_of : List ℕ → Frame → Tuple
tuple_of stripped f = with_layer (stripped ++ f.vids) f.layer

abbrev pub bare : Tuple
bare = record zero_tuple { flags = t_l2_valid }

pub stripped_lem :
    (stripped : Bool) (vid : ℕ)
    → (if stripped then push_vlan bare vid else next bare)
      ≡ next (with_vids (stripped_vids stripped vid) bare)
stripped_lem true vid = push_vlan-with_vids [] vid bare (omega arith)
stripped_lem false vid = refl

-- the tuple before the layer
abbrev pub tagged : List ℕ → Layer → Tuple
tagged vids l = record (with_vids vids bare) { ethertype = type_of l }

pub layered-tagged : (vids : List ℕ) (l : Layer) → layered l (tagged vids l) ≡ with_layer vids l
layered-tagged vids (segment n sport dport) = refl
layered-tagged vids (payload n) = refl
layered-tagged vids (arp sender target) = refl

module _ (p : List ℕ) (cap len : ℕ) (f : Frame) (v : IsFrame p cap len f) (stripped : Bool)
    (vid : ℕ) (few : length (stripped_vids stripped vid) + length f.vids ≤ 2)
    (cap_word : cap < 2 ^ 32) (len_word : len < 2 ^ 32) where
  parse_frame-IsFrame :
      parse_frame p cap len stripped vid ≡ next (parse_ok, tuple_of (stripped_vids stripped vid) f)
  unfolding parse_frame ◌>>=◌
  parse_frame-IsFrame =
      let seen = stripped_vids stripped vid in
      let whole =
        check-es_need zero_tuple 0 14 cap len v.ethernet v.ethernet_in_frame cap_word len_word in
      let (plain, tags) = vlan_loop-Tagged p cap len bare cap_word len_word seen v.tags few in
      let network =
        parse_network-IsLayer p cap len v.off cap_word len_word f.layer
          (tagged (seen ++ f.vids) f.layer) v.content in
      rw (
        parse_frame,
        whole,
        es_be16-Word p 12 v.first_type v.first_word,
        stripped_lem stripped vid,
        tags,
        network,
        layered-tagged (seen ++ f.vids) f.layer,
      )

pub clip_small : (cap len : ℕ) → clip cap len < 2 ^ 32
clip_small cap len = ground arith

-- For a frame of ARP, or of IPv4 or IPv6 with a TCP or UDP segment or another payload, behind at most two VLAN tags,
-- the one that the network card has stripped included, whose headers lie in the captured bytes, the parser returns
-- `ES_PARSE_OK` and exactly the fields that are on the wire.
pub es_parse-IsFrame :
    (p : List ℕ) (cap len : ℕ) (stripped : Bool) (vid : ℕ) (f : Frame)
    → IsFrame p (clip cap len) len f
    → length (stripped_vids stripped vid) + length f.vids ≤ 2
    → len < 2 ^ 32
    → es_parse p cap len stripped vid ≡ some (parse_ok, tuple_of (stripped_vids stripped vid) f)
unfolding es_parse outcome
es_parse-IsFrame p cap len stripped vid f v few len_word = rw (
  es_parse,
  parse_frame-IsFrame p (clip cap len) len f v stripped vid few (clip_small cap len) len_word,
)
