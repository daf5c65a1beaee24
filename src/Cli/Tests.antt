-- ===== src/Cli/Tests.antt =====
-- Small command lines, and the theorems at them.
use elephant_shrew.Prelude.{
  ℕ, ◌≡◌, ◌↔◌, refl, Bool, true, false, List, [], ◌∷◌, Option, none, some, arith,
}
use elephant_shrew.Config.{Text, RuntimeConfig, default_config}
use elephant_shrew.Config.Valid.{IsValid}
use elephant_shrew.Cli.{
  CliOptions, no_options, parse_arguments, read_arguments, check_options, parse_route_spec,
  load_effective_config, sleep_with_stop_check,
}
use elephant_shrew.Cli.Words.{Word, spelled, extend}
use elephant_shrew.Cli.Spelled.{parse_arguments_iff}
use elephant_shrew.Cli.Wait.{IsWait, sleep_with_stop_check-IsWait}
use elephant_shrew.Cli.Effective.{IsCommand, IsRunnable, load_effective_config-IsRunnable}

abbrev never : ℕ → Bool
never n = false

sleep_with_stop_check-IsWait_example :
    (naps : List ℕ) × (sleep_with_stop_check 6 never 5 2 ≡ some naps) × IsWait never 5 2 naps
sleep_with_stop_check-IsWait_example = sleep_with_stop_check-IsWait 6 never 5 2 (omega arith)

-- "--route", "a:a", "--bidirectional"
abbrev line : List Text
line =
    (45 ∷ 45 ∷ 114 ∷ 111 ∷ 117 ∷ 116 ∷ 101 ∷ [])
    ∷ (97 ∷ 58 ∷ 97 ∷ [])
    ∷ (45 ∷ 45 ∷ 98 ∷ 105 ∷ 100 ∷ 105 ∷ 114 ∷ 101 ∷ 99 ∷ 116 ∷ 105 ∷ 111 ∷ 110 ∷ 97 ∷ 108 ∷ [])
    ∷ []

abbrev options : CliOptions
options = record no_options { route_spec = some (97 ∷ 58 ∷ 97 ∷ []); bidirectional_route = true }

parse-line : parse_arguments line ≡ some options
unfolding parse_arguments read_arguments check_options
parse-line = refl

parse_arguments_iff_example : (parse_arguments line ≡ some options) ↔ (
    (ws : List Word) × (line ≡ spelled ws) × (options ≡ extend no_options ws) × IsCommand options)
parse_arguments_iff_example = parse_arguments_iff line options

abbrev no_file : Text → Option RuntimeConfig
no_file path = none

no_file-IsValid : (path : Text) (c : RuntimeConfig) → no_file path ≡ some c → IsValid c
no_file-IsValid path c h = absurd cc

-- a route from an interface to itself
abbrev looped : RuntimeConfig
looped = record default_config {
  routing = record {
    enabled = true;
    ingress_iface = 97 ∷ [];
    egress_iface = 97 ∷ [];
    bidirectional = true;
  };
}

load-looped : load_effective_config no_file options ≡ some looped
unfolding load_effective_config parse_route_spec
load-looped = refl

load_effective_config-IsRunnable_example :
    IsRunnable looped × (looped.routing.enabled ≡ true → options.ifaces ≡ [])
load_effective_config-IsRunnable_example =
    load_effective_config-IsRunnable no_file no_file-IsValid options load-looped
