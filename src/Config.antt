-- ===== src/Config.antt =====
-- src/RuntimeConfig.cpp: the configuration read from a JSON document. The JSON library is a parameter,
-- a string is the list of its bytes, and `none` is an exception.

pub mod Valid
mod Tests
use elephant_shrew.Prelude.{
  ℕ, Bool, true, false, not, ◌&&◌, ◌||◌, List, [], ◌∷◌, Option, none, some, ◌==◌, if◌then◌else◌,
  ◌>>=◌,
}

abbrev pub Text : Type 0
Text = List ℕ

abbrev pub is_empty : Text → Bool
is_empty [] = true
is_empty (c ∷ cs) = false

abbrev pub same_text : Text → Text → Bool
same_text [] [] = true
same_text [] (d ∷ ds) = false
same_text (c ∷ cs) [] = false
same_text (c ∷ cs) (d ∷ ds) = c == d && same_text cs ds

pub record CaptureOptions : Type 0 where
  pub ifaces : List Text
  pub record_packets : Bool
  pub debug_packets : Bool

pub record RoutingOptions : Type 0 where
  pub enabled : Bool
  pub ingress_iface : Text
  pub egress_iface : Text
  pub bidirectional : Bool

pub record RedisStoreOptions : Type 0 where
  pub host : Text
  pub port : Text
  pub stream_key : Text
  pub max_pending_writes : ℕ
  pub connect_timeout_ms : ℕ
  pub drain_timeout_ms : ℕ

pub record SupervisorOptions : Type 0 where
  pub restart_delay_ms : ℕ
  pub poll_interval_ms : ℕ

pub record UiOptions : Type 0 where
  pub show_startup_art : Bool

pub record RuntimeConfig : Type 0 where
  pub capture : CaptureOptions
  pub routing : RoutingOptions
  pub redis : RedisStoreOptions
  pub supervisor : SupervisorOptions
  pub ui : UiOptions

-- `RuntimeConfig config;`: the strings are "127.0.0.1", "6379" and "elephantshrew:packets"
abbrev pub default_config : RuntimeConfig
default_config = record {
  capture = record { ifaces = []; record_packets = false; debug_packets = false };
  routing = record {
    enabled = false;
    ingress_iface = [];
    egress_iface = [];
    bidirectional = false;
  };
  redis = record {
    host = 49 ∷ 50 ∷ 55 ∷ 46 ∷ 48 ∷ 46 ∷ 48 ∷ 46 ∷ 49 ∷ [];
    port = 54 ∷ 51 ∷ 55 ∷ 57 ∷ [];
    stream_key =
        101 ∷ 108 ∷ 101 ∷ 112 ∷ 104 ∷ 97 ∷ 110 ∷ 116 ∷ 115 ∷ 104 ∷ 114 ∷ 101 ∷ 119 ∷ 58 ∷ 112 ∷ 97
        ∷ 99 ∷ 107 ∷ 101 ∷ 116 ∷ 115 ∷ [];
    max_pending_writes = 1024;
    connect_timeout_ms = 5000;
    drain_timeout_ms = 5000;
  };
  supervisor = record { restart_delay_ms = 2000; poll_interval_ms = 200 };
  ui = record { show_startup_art = true };
}

-- the key literals, each a constructor with its text in the name
pub data Key : Type 0 where
  key_capture key_redis key_routing key_supervisor key_ui : Key
  key_interfaces key_ifaces key_record_packets key_debug_packets : Key
  key_host key_port key_stream_key key_max_pending_writes key_connect_timeout_ms
        key_drain_timeout_ms :
      Key
  key_enabled key_ingress_iface key_egress_iface key_from_interface key_to_interface
        key_bidirectional :
      Key
  key_restart_delay_ms key_poll_interval_ms key_show_startup_art : Key

-- what is used of nlohmann::json: `get` of a type is `none` where it throws
pub record Json (J : Type 0) : Type 0 where
  pub is_object : J → Bool
  pub find : J → Key → Option J
  pub get_bool : J → Option Bool
  pub get_number : J → Option ℕ
  pub get_text : J → Option Text
  pub get_texts : J → Option (List Text)

module _ {J : Type 0} (json : Json J) where
  -- `FindObject`; the inner `none` is the null pointer
  unfoldable pub find_object : J → Key → Option (Option J)
  find_object parent key = elim (json.find parent key) [
    | none ↦ some none
    | some j ↦ if not (json.is_object j) then none else some (some j)
  ]

  module _ {A : Type 0} where
    -- `ReadValue`
    unfoldable pub read_value : (J → Option A) → J → Key → A → Option A
    read_value get object key value = elim (json.find object key) [
      | none ↦ some value
      | some j ↦ get j
    ]

    -- `if (const auto* section = FindObject(...)) { ... }`
    unfoldable pub in_section : J → Key → (J → A → Option A) → A → Option A
    in_section root key read value = do
      o ← find_object root key
      elim o [ none ↦ some value | some j ↦ read j value ]

  unfoldable pub read_capture : J → CaptureOptions → Option CaptureOptions
  read_capture j c = do
    interfaces ← read_value json.get_texts j key_interfaces c.ifaces
    ifaces ← read_value json.get_texts j key_ifaces interfaces
    record_packets ← read_value json.get_bool j key_record_packets c.record_packets
    debug_packets ← read_value json.get_bool j key_debug_packets c.debug_packets
    some
        (record { ifaces = ifaces; record_packets = record_packets; debug_packets = debug_packets })

  unfoldable pub read_redis : J → RedisStoreOptions → Option RedisStoreOptions
  read_redis j c = do
    host ← read_value json.get_text j key_host c.host
    port ← read_value json.get_text j key_port c.port
    stream_key ← read_value json.get_text j key_stream_key c.stream_key
    writes ← read_value json.get_number j key_max_pending_writes c.max_pending_writes
    connect ← read_value json.get_number j key_connect_timeout_ms c.connect_timeout_ms
    drain ← read_value json.get_number j key_drain_timeout_ms c.drain_timeout_ms
    some (record {
      host = host;
      port = port;
      stream_key = stream_key;
      max_pending_writes = writes;
      connect_timeout_ms = connect;
      drain_timeout_ms = drain;
    })

  unfoldable pub read_routing : J → RoutingOptions → Option RoutingOptions
  read_routing j c = do
    enabled ← read_value json.get_bool j key_enabled c.enabled
    ingress ← read_value json.get_text j key_ingress_iface c.ingress_iface
    egress ← read_value json.get_text j key_egress_iface c.egress_iface
    from ← read_value json.get_text j key_from_interface ingress
    to ← read_value json.get_text j key_to_interface egress
    bidirectional ← read_value json.get_bool j key_bidirectional c.bidirectional
    some (record {
      enabled = enabled;
      ingress_iface = from;
      egress_iface = to;
      bidirectional = bidirectional;
    })

  unfoldable pub read_supervisor : J → SupervisorOptions → Option SupervisorOptions
  read_supervisor j c = do
    restart ← read_value json.get_number j key_restart_delay_ms c.restart_delay_ms
    poll ← read_value json.get_number j key_poll_interval_ms c.poll_interval_ms
    some (record { restart_delay_ms = restart; poll_interval_ms = poll })

  unfoldable pub read_ui : J → UiOptions → Option UiOptions
  read_ui j c = do
    art ← read_value json.get_bool j key_show_startup_art c.show_startup_art
    some (record { show_startup_art = art })

  -- the five sections, over the defaults
  unfoldable pub read_sections : J → RuntimeConfig → Option RuntimeConfig
  read_sections root c = do
    capture ← in_section root key_capture read_capture c.capture
    redis ← in_section root key_redis read_redis c.redis
    routing ← in_section root key_routing read_routing c.routing
    supervisor ← in_section root key_supervisor read_supervisor c.supervisor
    ui ← in_section root key_ui read_ui c.ui
    some (record {
      capture = capture;
      routing = routing;
      redis = redis;
      supervisor = supervisor;
      ui = ui;
    })

-- an interface name turns the routing on
abbrev pub switch_routing : RoutingOptions → RoutingOptions
switch_routing r =
    if not (is_empty r.ingress_iface) || not (is_empty r.egress_iface)
    then record r { enabled = true }
    else r

abbrev pub bad_routing : RoutingOptions → Bool
bad_routing r =
    r.enabled
    && (is_empty r.ingress_iface
        || is_empty r.egress_iface
        || same_text r.ingress_iface r.egress_iface)

abbrev pub bad_redis_text : RedisStoreOptions → Bool
bad_redis_text r = is_empty r.host || is_empty r.port || is_empty r.stream_key

abbrev pub has_zero : RuntimeConfig → Bool
has_zero c =
    c.redis.max_pending_writes == 0
    || c.redis.connect_timeout_ms == 0
    || c.redis.drain_timeout_ms == 0
    || c.supervisor.restart_delay_ms == 0
    || c.supervisor.poll_interval_ms == 0

-- the checks after the sections
unfoldable pub check_config : RuntimeConfig → Option RuntimeConfig
check_config c =
    let c' = record c { routing = switch_routing c.routing } in
    if bad_redis_text c.redis
    then none
    else if bad_routing c'.routing
    then none
    else if has_zero c'
    then none
    else some c'

-- `LoadRuntimeConfigFromJson`; `none` for a file that is not there or is not JSON
unfoldable pub load_runtime_config : {J : Type 0} → Json J → Option J → Option RuntimeConfig
load_runtime_config json none = none
load_runtime_config json (some root) =
    if not (json.is_object root)
    then none
    else (do c ← read_sections json root default_config; check_config c)
