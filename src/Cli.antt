-- ===== src/Cli.antt =====
-- src/ElephantShrewMain.cpp: the command line, the configuration that takes effect, and the wait
-- between restarts.
pub mod Wait
pub mod Effective
pub mod Supervised
pub mod Words
pub mod Spelled
mod Tests
use elephant_shrew.Prelude.{
  ℕ, zero, suc, ◌+◌, ◌-◌, Bool, true, false, not, ◌&&◌, ◌||◌, List, [], ◌∷◌, ◌++◌, Option, none,
  some, take, drop, ltb, ◌==◌, if◌then◌else◌, ◌>>=◌,
}
use mathlib.Core.Option
use elephant_shrew.Config.{
  Text, is_empty, same_text, RuntimeConfig, CaptureOptions, RoutingOptions, default_config,
}

-- `std::string::find`, of a character and of "->"; `none` is `npos`
abbrev pub find_char : ℕ → Text → Option ℕ
find_char c [] = none
find_char c (d ∷ ds) = if d == c then some 0 else Option.map suc (find_char c ds)

abbrev pub starts_arrow : Text → Bool
starts_arrow (c ∷ d ∷ ds) = c == 45 && d == 62
starts_arrow _ = false

abbrev pub find_arrow : Text → Option ℕ
find_arrow [] = none
find_arrow (c ∷ cs) = if starts_arrow (c ∷ cs) then some 0 else Option.map suc (find_arrow cs)

-- position and size of the separator: "->", else ':', else ','
abbrev pub separator : Text → Option (ℕ × ℕ)
separator s = elim (find_arrow s) [
  | some i ↦ some (i, 2)
  | none ↦ elim (find_char 58 s) [
    | some i ↦ some (i, 1)
    | none ↦ Option.map (λ i. (i, 1)) (find_char 44 s)
  ]
]

abbrev pub named : Text → Text → Option (Text × Text)
named ingress egress =
    if not (is_empty ingress) && not (is_empty egress) then some (ingress, egress) else none

-- `ParseRouteSpec`; `none` is false, and then the caller leaves both strings unread
unfoldable pub parse_route_spec : Text → Option (Text × Text)
parse_route_spec s = do (pos, size) ← separator s; named (take pos s) (drop (pos + size) s)

pub record CliOptions : Type 0 where
  pub config_path : Option Text
  pub ifaces : List Text
  pub route_spec : Option Text
  pub record_packets : Bool
  pub debug_packets : Bool
  pub bidirectional_route : Bool
  pub scan_only : Bool

abbrev pub no_options : CliOptions
no_options = record {
  config_path = none;
  ifaces = [];
  route_spec = none;
  record_packets = false;
  debug_packets = false;
  bidirectional_route = false;
  scan_only = false;
}

-- the arguments that the code knows
pub data Flag : Type 0 where
  flag_c flag_i flag_route flag_bidirectional flag_s flag_r flag_d unknown : Flag

-- the comparisons of `arg` in their order; the literals are "-c", "-i", "--route",
-- "--bidirectional", "-s", "-r" and "-d"
abbrev pub flag_of : Text → Flag
flag_of arg =
    if same_text arg (45 ∷ 99 ∷ [])
    then flag_c
    else if same_text arg (45 ∷ 105 ∷ [])
    then flag_i
    else if same_text arg (45 ∷ 45 ∷ 114 ∷ 111 ∷ 117 ∷ 116 ∷ 101 ∷ [])
    then flag_route
    else if same_text arg
        (45 ∷ 45 ∷ 98 ∷ 105 ∷ 100 ∷ 105 ∷ 114 ∷ 101 ∷ 99 ∷ 116 ∷ 105 ∷ 111 ∷ 110 ∷ 97 ∷ 108 ∷ [])
    then flag_bidirectional
    else if same_text arg (45 ∷ 115 ∷ [])
    then flag_s
    else if same_text arg (45 ∷ 114 ∷ [])
    then flag_r
    else if same_text arg (45 ∷ 100 ∷ [])
    then flag_d
    else unknown

-- one argument that takes no value
abbrev pub switch : Flag → CliOptions → Option CliOptions
switch flag_bidirectional o = some (record o { bidirectional_route = true })
switch flag_s o = some (record o { scan_only = true })
switch flag_r o = some (record o { record_packets = true })
switch flag_d o = some (record o { debug_packets = true })
switch _ o = none

-- one argument with the value that follows it
abbrev pub assign : Flag → Text → CliOptions → Option CliOptions
assign flag_c v o = some (record o { config_path = some v })
assign flag_i v o = some (record o { ifaces = o.ifaces ++ v ∷ [] })
assign flag_route v o = some (record o { route_spec = some v })
assign _ v o = none

abbrev pub takes_value : Flag → Bool
takes_value flag_c = true
takes_value flag_i = true
takes_value flag_route = true
takes_value _ = false

-- the loop over `argv`, from index 1
unfoldable pub read_arguments : List Text → CliOptions → Option CliOptions
read_arguments [] o = some o
read_arguments (arg ∷ []) o = if takes_value (flag_of arg) then none else switch (flag_of arg) o
read_arguments (arg ∷ value ∷ args) o =
    let assigned = assign (flag_of arg) value o >>= read_arguments args in
    let switched = switch (flag_of arg) o >>= read_arguments (value ∷ args) in
    if takes_value (flag_of arg) then assigned else switched

abbrev pub is_set : Option Text → Bool
is_set none = false
is_set (some s) = true

abbrev pub has_ifaces : CliOptions → Bool
has_ifaces o = elim o.ifaces [ [] ↦ false | i ∷ is ↦ true ]

abbrev pub scan_conflicts : CliOptions → Bool
scan_conflicts o =
    o.scan_only
    && (has_ifaces o
        || is_set o.route_spec
        || o.record_packets
        || o.debug_packets
        || o.bidirectional_route)

-- the checks after the loop
unfoldable pub check_options : CliOptions → Option CliOptions
check_options o =
    if scan_conflicts o
    then none
    else if is_set o.route_spec && has_ifaces o
    then none
    else if o.bidirectional_route && not (is_set o.route_spec)
    then none
    else some o

-- `ParseArguments`; `none` is false
unfoldable pub parse_arguments : List Text → Option CliOptions
parse_arguments args = read_arguments args no_options >>= check_options

-- what the options change in a configuration, up to the routing
abbrev pub override_capture : CliOptions → RuntimeConfig → RuntimeConfig
override_capture o c = record c {
  capture = record {
    ifaces = if has_ifaces o then o.ifaces else c.capture.ifaces;
    record_packets = if o.record_packets then true else c.capture.record_packets;
    debug_packets = if o.debug_packets then true else c.capture.debug_packets;
  };
}

abbrev pub override_route : Option Text → RuntimeConfig → Option RuntimeConfig
override_route none c = some c
override_route (some spec) c = do
  (ingress, egress) ← parse_route_spec spec
  some (record c {
    routing = record c.routing { enabled = true; ingress_iface = ingress; egress_iface = egress };
    capture = record c.capture { ifaces = [] };
  })

abbrev pub override_direction : Bool → RuntimeConfig → RuntimeConfig
override_direction b c = record c {
  routing = record c.routing { bidirectional = if b then true else c.routing.bidirectional };
}

-- `LoadEffectiveConfig`; `load` reads a file, and `none` is an exception
unfoldable pub load_effective_config :
    (Text → Option RuntimeConfig) → CliOptions → Option RuntimeConfig
load_effective_config load o = do
  c ← elim o.config_path [ none ↦ some default_config | some path ↦ load path ]
  routed ← override_route o.route_spec (override_capture o c)
  let c' = override_direction o.bidirectional_route routed
  if c'.routing.enabled && has_ifaces o then none else some c'

-- `SleepWithStopCheck`, on fuel: the lengths of its sleeps, in order. `stop n` is what the `n`-th test of
-- the stop flag reads. The durations are not negative.
unfoldable pub sleep_loop : ℕ → (ℕ → Bool) → ℕ → ℕ → Option (List ℕ)
sleep_loop zero stop remaining interval = none
sleep_loop (suc fuel) stop remaining interval =
    let nap = if ltb interval remaining then interval else remaining in
    let rest = sleep_loop fuel (λ n. stop (suc n)) (remaining - nap) interval in
    if ltb 0 remaining && not (stop zero) then Option.map (λ ns. nap ∷ ns) rest else some []

unfoldable pub sleep_with_stop_check : ℕ → (ℕ → Bool) → ℕ → ℕ → Option (List ℕ)
sleep_with_stop_check fuel stop delay interval =
    sleep_loop fuel stop delay (if interval == 0 then 1 else interval)

-- One turn of the loop of `main`: what the stop flag reads before and after the service, whether the
-- service ended by an exception, and the readings of the stop flag during the wait.
pub record Round : Type 0 where
  pub stop_before : Bool
  pub crashed : Bool
  pub stop_after : Bool
  pub stop_in_wait : ℕ → Bool

-- the loop of `main`, on fuel: the naps of each wait between two runs of the service
unfoldable pub supervise : ℕ → (ℕ → Round) → RuntimeConfig → Option (List (List ℕ))
supervise zero rounds c = none
supervise (suc fuel) rounds c =
    let round = rounds zero in
    let delay = c.supervisor.restart_delay_ms in
    let wait =
      sleep_with_stop_check (suc delay) round.stop_in_wait delay c.supervisor.poll_interval_ms in
    let again = supervise fuel (λ n. rounds (suc n)) c in
    if round.stop_before || round.stop_after
    then some []
    else wait >>= λ naps. Option.map (λ rest. naps ∷ rest) again

-- `main`, its exit code; `scan` is the result of `ListInterfaces`, `none` where it throws
unfoldable pub run_main :
    (Text → Option RuntimeConfig) → Option ℕ → ℕ → (ℕ → Round) → List Text → Option ℕ
run_main load scan fuel rounds args = elim (parse_arguments args) [
  | none ↦ some 1
  | some o ↦ elim (load_effective_config load o) [
    | none ↦ some 1
    | some c ↦
        if o.scan_only
        then elim scan [ none ↦ some 1 | some code ↦ some code ]
        else Option.map (λ naps. 0) (supervise fuel rounds c)
  ]
]
