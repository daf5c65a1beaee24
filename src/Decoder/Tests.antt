-- ===== src/Decoder/Tests.antt =====
-- The record of a TCP segment, and the theorems at it.
use elephant_shrew.Prelude.{◌↔◌, List, ℕ, ◌≡◌, refl, [], ◌∷◌, some, arith, replicate}
use elephant_shrew.Abi.{zero_tuple, Event}
use elephant_shrew.Abi.Layout.{
  store_event, load_event, EventFits, TupleFits, sizeof_event, load_tuple, store_tuple,
}
use elephant_shrew.Decoder.{decode_event, check_event}
use elephant_shrew.Decoder.Accepts.{IsTrusted, decode_event_iff}

abbrev pub segment : Event
segment = record {
  timestamp_mono_ns = 1000;
  sequence = 1;
  ifindex = 3;
  original_len = 60;
  cpu = 0;
  abi_version = 2;
  record_size = 216;
  captured_len = 0;
  link_type = 1;
  direction = 1;
  hook = 1;
  parse_status = 0;
  flags = 0;
  tuple = record zero_tuple {
    l4_proto = 6;
    flags = 3;
    sport = 1 ∷ 187 ∷ [];
    dport = 19 ∷ 136 ∷ [];
  };
  prefix = replicate 128 0;
}

decode-segment : decode_event (some (store_event segment)) 216 ≡ some segment
unfolding decode_event check_event load_event store_event load_tuple store_tuple
decode-segment = refl

segment-EventFits : EventFits segment
segment-EventFits = ground arith

segment-TupleFits : TupleFits segment.tuple
segment-TupleFits = ground arith

decode_event_iff_example : (decode_event (some (store_event segment)) 216 ≡ some segment) ↔ (
    (bytes : List ℕ) × (some (store_event segment) ≡ some bytes)
    × (sizeof_event ≡ 216)
    × (load_event bytes ≡ segment)
    × IsTrusted segment)
decode_event_iff_example = decode_event_iff (some (store_event segment)) 216 segment
