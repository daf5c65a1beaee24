-- ===== src/Render/Tests.antt =====
-- Small texts, and the theorems at them.
use elephant_shrew.Prelude.{◌≡◌, refl, [], ◌∷◌, codes}
use elephant_shrew.Render.{digits, to_string, hex}

hex-bytes : hex (0 ∷ 26 ∷ 255 ∷ []) ≡ codes "001aff"
unfolding hex
hex-bytes = refl

to_string-number : to_string 1024 ≡ codes "1024"
unfolding to_string digits
to_string-number = refl
