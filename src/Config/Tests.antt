-- ===== src/Config/Tests.antt =====
-- A document with a routing section, and the theorem at it.
use elephant_shrew.Prelude.{◌≡◌, refl, Bool, true, false, [], ◌∷◌, Option, none, some}
use elephant_shrew.Config.{
  Text, RuntimeConfig, default_config, Key, key_routing, key_from_interface, key_to_interface, Json,
  find_object, read_value, in_section, read_sections, read_capture, read_redis, read_routing,
  read_supervisor, read_ui, check_config, load_runtime_config,
}

-- documents of objects and strings
data Doc : Type 0 where
  top : Doc
  section : Text → Text → Doc
  text : Text → Doc

abbrev member : Doc → Key → Option Doc
member (section a b) key_from_interface = some (text a)
member (section a b) key_to_interface = some (text b)
member top key_routing = some (section (97 ∷ []) (98 ∷ []))
member _ _ = none

abbrev is_section : Doc → Bool
is_section (text s) = false
is_section _ = true

abbrev text_of : Doc → Option Text
text_of (text s) = some s
text_of _ = none

abbrev docs : Json Doc
docs = record {
  is_object = is_section;
  find = member;
  get_bool = λ j. none;
  get_number = λ j. none;
  get_text = text_of;
  get_texts = λ j. none;
}

abbrev routed : RuntimeConfig
routed = record default_config {
  routing = record {
    enabled = true;
    ingress_iface = 97 ∷ [];
    egress_iface = 98 ∷ [];
    bidirectional = false;
  };
}

load-top : load_runtime_config docs (some top) ≡ some routed
unfolding load_runtime_config read_sections in_section find_object read_capture read_redis
    read_routing read_supervisor read_ui read_value check_config
load-top = refl
