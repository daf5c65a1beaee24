-- ===== src/Parser/Sound/Tests.antt =====
-- The tagged frame of Wire/Tests.antt, read and described.
use elephant_shrew.Prelude.{◌+◌, ◌≤◌, ◌≡◌, ◌↔◌, true, [], ◌∷◌, some, arith, length}
use elephant_shrew.Abi.{Tuple, parse_ok}
use elephant_shrew.Parser.{es_parse}
use elephant_shrew.Parser.Wire.Frame.{Frame, IsFrame, tuple_of}
use elephant_shrew.Parser.Wire.Tests.{padded, shrew_frame}
use elephant_shrew.Parser.Sound.Frame.{es_parse_iff}

abbrev tuple : Tuple
tuple = tuple_of (0x64 ∷ []) shrew_frame

es_parse_iff_example : (es_parse padded 74 74 true 0x64 ≡ some (parse_ok, tuple)) ↔ (
    (f : Frame) × IsFrame padded 74 74 f
    × (1 + length f.vids ≤ 2)
    × (tuple ≡ tuple_of (0x64 ∷ []) f))
es_parse_iff_example = es_parse_iff padded 74 74 true 0x64 tuple (ground arith) (omega arith)
