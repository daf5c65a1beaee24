-- ===== src/Parser/Tests.antt =====
-- The frames of tests/ebpf/parser_test.cpp, and the theorems at them.
use elephant_shrew.Prelude.{
  ℕ, ◌<◌, ◌≡◌, ◌≢◌, ◌↔◌, refl, Bool, true, false, List, [], ◌∷◌, ◌++◌, Option, some, arith, take,
  drop, replicate, has_flag,
}
use elephant_shrew.Abi.{
  Tuple, zero_tuple, ParseStatus, parse_ok, truncated, unsupported, malformed, fragment, skipped,
  t_l2_valid, t_addr_valid, t_fragment,
}
use elephant_shrew.Parser.{
  es_need, push_vlan, vlan_tag, vlan_loop, arp_addresses, parse_arp, ipv4_fields, ipv4_lengths,
  parse_ipv4, ext_fragment, ext_header, ext_loop, ipv6_fields, ipv6_lengths, parse_ipv6,
  parse_transport, parse_network, parse_frame, es_parse,
}
use elephant_shrew.Parser.Reader.{◌>>=◌, check, byte, es_be16, slice, outcome}
use elephant_shrew.Parser.Shape.{Sized}
use elephant_shrew.Parser.Guarantees.{
  es_parse_total, es_parse-Sized, es_parse-flags, es_parse_whole,
}
use elephant_shrew.Parser.Prefix.{es_parse_stable}

-- a test sees through the whole parser
run_parse : List ℕ → ℕ → ℕ → Bool → ℕ → Option (ParseStatus × Tuple)
unfolding es_parse parse_frame parse_network parse_transport parse_ipv6 ipv6_lengths ipv6_fields
    ext_loop ext_header ext_fragment parse_ipv4 ipv4_lengths ipv4_fields parse_arp arp_addresses
    vlan_loop vlan_tag push_vlan es_need check byte es_be16 slice outcome ◌>>=◌
run_parse = es_parse

-- `V4()`: 192.0.0.1:12345 to 192.0.0.2:443, with `proto` and the fragment field given
abbrev v4_with : ℕ → ℕ → List ℕ
v4_with frag proto =
    replicate 12 0
    ++ 8 ∷ 0 ∷ 0x45 ∷ 0 ∷ 0 ∷ 28 ∷ 0 ∷ 0 ∷ frag ∷ 0 ∷ 0 ∷ proto ∷ 0 ∷ 0 ∷ 192 ∷ 0 ∷ 0 ∷ 1 ∷ 192 ∷ 0
      ∷ 0 ∷ 2 ∷ 0x30 ∷ 0x39 ∷ 1 ∷ 0xbb ∷ 0 ∷ 8 ∷ 0 ∷ 0 ∷ []

abbrev pub v4 : List ℕ
v4 = v4_with 0 17

abbrev pub v4_tuple : Tuple
v4_tuple = record zero_tuple {
  src = 192 ∷ 0 ∷ 0 ∷ 1 ∷ replicate 12 0;
  dst = 192 ∷ 0 ∷ 0 ∷ 2 ∷ replicate 12 0;
  sport = 0x30 ∷ 0x39 ∷ [];
  dport = 1 ∷ 0xbb ∷ [];
  ethertype = 0x800;
  ip_version = 4;
  l4_proto = 17;
  flags = 7;
}

parse-v4 : es_parse v4 42 42 false 0 ≡ some (parse_ok, v4_tuple)
unfolding run_parse
parse-v4 = refl

pub parse_buffered-v4 : es_parse (v4 ++ replicate 86 0) 42 42 false 0 ≡ some (parse_ok, v4_tuple)
unfolding run_parse
parse_buffered-v4 = refl

-- one tag, with another one stripped by the network card
parse_tagged :
    es_parse (take 12 v4 ++ 0x81 ∷ 0 ∷ 0 ∷ 1 ∷ drop 12 v4) 46 46 true 7
    ≡ some (parse_ok, record v4_tuple { vlan = 7 ∷ 1 ∷ []; vlan_count = 2 })
unfolding run_parse
parse_tagged = refl

parse_three_tags :
    es_parse
      (take 12 v4 ++ 0x81 ∷ 0 ∷ 0 ∷ 1 ∷ 0x81 ∷ 0 ∷ 0 ∷ 2 ∷ 0x81 ∷ 0 ∷ 0 ∷ 3 ∷ drop 12 v4)
      54
      54
      false
      0
    ≡ some (
      unsupported,
      record zero_tuple { ethertype = 0x8100; vlan = 1 ∷ 2 ∷ []; vlan_count = 2; flags = 1 },
    )
unfolding run_parse
parse_three_tags = refl

abbrev fragment_tuple : Tuple
fragment_tuple = record v4_tuple { sport = 0 ∷ 0 ∷ []; dport = 0 ∷ 0 ∷ []; flags = 11 }

parse_fragment : es_parse (v4_with 0x20 17) 42 42 false 0 ≡ some (fragment, fragment_tuple)
unfolding run_parse
parse_fragment = refl

parse_dont_fragment : es_parse (v4_with 0x40 17) 42 42 false 0 ≡ some (parse_ok, v4_tuple)
unfolding run_parse
parse_dont_fragment = refl

parse_short : es_parse (0 ∷ 0 ∷ 0 ∷ 0 ∷ []) 4 4 false 0 ≡ some (malformed, zero_tuple)
unfolding run_parse
parse_short = refl

abbrev cut_tuple : Tuple
cut_tuple = record zero_tuple {
  src = 192 ∷ 0 ∷ 0 ∷ 1 ∷ replicate 12 0;
  dst = 192 ∷ 0 ∷ 0 ∷ 2 ∷ replicate 12 0;
  ethertype = 0x800;
  ip_version = 4;
  l4_proto = 17;
  flags = 3;
}

parse_cut : es_parse (take 41 v4) 41 42 false 0 ≡ some (truncated, cut_tuple)
unfolding run_parse
parse_cut = refl

-- IPv6 with one hop-by-hop header before UDP
abbrev v6_ext : List ℕ
v6_ext =
    replicate 12 0
    ++ 0x86 ∷ 0xdd ∷ 0x60 ∷ 0 ∷ 0 ∷ 0 ∷ 0 ∷ 16 ∷ 0 ∷ 64 ∷ []
    ++ replicate 32 1
    ++ 17 ∷ 0 ∷ 0 ∷ 0 ∷ 0 ∷ 0 ∷ 0 ∷ 0 ∷ 0x30 ∷ 0x39 ∷ 1 ∷ 0xbb ∷ 0 ∷ 8 ∷ 0 ∷ 0 ∷ []

parse-v6_ext :
    es_parse v6_ext 70 70 false 0
    ≡ some (
      parse_ok,
      record v4_tuple {
        src = replicate 16 1;
        dst = replicate 16 1;
        ethertype = 0x86dd;
        ip_version = 6;
      },
    )
unfolding run_parse
parse-v6_ext = refl

es_parse_total_example : (r : ParseStatus × Tuple) × (es_parse (take 20 v4) 20 42 false 0 ≡ some r)
es_parse_total_example =
    es_parse_total (take 20 v4) 20 42 false 0 (omega arith) (omega arith) (omega arith)
      (omega arith)

es_parse-Sized_example : Sized v4_tuple × (v4_tuple.flags < 16) × (parse_ok ≢ skipped)
es_parse-Sized_example =
    es_parse-Sized v4 42 42 false 0 (omega arith) (omega arith) (omega arith) (omega arith) parse-v4

es_parse-flags_example :
    ((fragment ≡ fragment) ↔ (has_flag fragment_tuple.flags t_fragment ≡ true))
    × (fragment ≡ parse_ok
        → (has_flag fragment_tuple.flags t_l2_valid ≡ true)
          × (has_flag fragment_tuple.flags t_addr_valid ≡ true))
es_parse-flags_example =
    es_parse-flags (v4_with 0x20 17) 42 42 false 0 (omega arith) (omega arith) (omega arith)
      (omega arith) parse_fragment

es_parse_whole_example : parse_ok ≢ truncated
es_parse_whole_example =
    es_parse_whole v4 42 42 false 0 (omega arith) (omega arith) (omega arith) (omega arith) parse-v4
      (omega arith) (omega arith)

not_truncated : parse_ok ≢ truncated
not_truncated e = cc

es_parse_stable_example : es_parse (v4 ++ 1 ∷ 2 ∷ []) 44 42 false 0 ≡ some (parse_ok, v4_tuple)
es_parse_stable_example =
    es_parse_stable v4 (1 ∷ 2 ∷ []) 42 44 42 false 0 (omega arith) parse-v4 not_truncated
