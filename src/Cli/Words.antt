-- ===== src/Cli/Words.antt =====
-- src/ElephantShrewMain.cpp: what a command line may ask for, and what it means, said without the loop.
use mathlib.Core.List.{append-nil, append_assoc}
use mathlib.Core.Path.{subst}
use elephant_shrew.Prelude.{
  ◌≡◌, refl, sym, ap, inl, inr, Bool, true, false, ◌||◌, List, [], ◌∷◌, ◌++◌, Option, none, some,
  codes, Bool-cases,
}
use elephant_shrew.Config.{Text, same_text}
use elephant_shrew.Config.Valid.{same_text-eq}
use elephant_shrew.Cli.{CliOptions, flag_of, switch, assign, takes_value}

-- what a user may ask for
pub data Word : Type 0 where
  use_config use_iface use_route : Text → Word
  both_ways just_scan keep_packets show_packets : Word

-- the arguments for it
abbrev pub spell : Word → List Text
spell (use_config path) = codes "-c" ∷ path ∷ []
spell (use_iface name) = codes "-i" ∷ name ∷ []
spell (use_route spec) = codes "--route" ∷ spec ∷ []
spell both_ways = codes "--bidirectional" ∷ []
spell just_scan = codes "-s" ∷ []
spell keep_packets = codes "-r" ∷ []
spell show_packets = codes "-d" ∷ []

abbrev pub spelled : List Word → List Text
spelled [] = []
spelled (w ∷ ws) = spell w ++ spelled ws

abbrev pub config_in : Word → Option Text
config_in (use_config path) = some path
config_in _ = none

abbrev pub route_in : Word → Option Text
route_in (use_route spec) = some spec
route_in _ = none

abbrev pub iface_in : Word → List Text
iface_in (use_iface name) = name ∷ []
iface_in _ = []

abbrev pub is_both_ways : Word → Bool
is_both_ways both_ways = true
is_both_ways _ = false

abbrev pub is_just_scan : Word → Bool
is_just_scan just_scan = true
is_just_scan _ = false

abbrev pub is_keep_packets : Word → Bool
is_keep_packets keep_packets = true
is_keep_packets _ = false

abbrev pub is_show_packets : Word → Bool
is_show_packets show_packets = true
is_show_packets _ = false

-- the last value given, or else `o`
abbrev pub latest : (Word → Option Text) → Option Text → List Word → Option Text
latest f o [] = o
latest f o (w ∷ ws) = latest f (elim (f w) [ none ↦ o | some v ↦ some v ]) ws

abbrev pub all_ifaces : List Word → List Text
all_ifaces [] = []
all_ifaces (w ∷ ws) = iface_in w ++ all_ifaces ws

abbrev pub asked : (Word → Bool) → List Word → Bool
asked f [] = false
asked f (w ∷ ws) = f w || asked f ws

-- what words add to options: the last path and the last route win, the interfaces are all kept, in order
abbrev pub extend : CliOptions → List Word → CliOptions
extend o ws = record {
  config_path = latest config_in o.config_path ws;
  ifaces = o.ifaces ++ all_ifaces ws;
  route_spec = latest route_in o.route_spec ws;
  record_packets = o.record_packets || asked is_keep_packets ws;
  debug_packets = o.debug_packets || asked is_show_packets ws;
  bidirectional_route = o.bidirectional_route || asked is_both_ways ws;
  scan_only = o.scan_only || asked is_just_scan ws;
}

-- one word
abbrev pub step : Word → CliOptions → CliOptions
step (use_config path) o = record o { config_path = some path }
step (use_iface name) o = record o { ifaces = o.ifaces ++ name ∷ [] }
step (use_route spec) o = record o { route_spec = some spec }
step both_ways o = record o { bidirectional_route = true }
step just_scan o = record o { scan_only = true }
step keep_packets o = record o { record_packets = true }
step show_packets o = record o { debug_packets = true }

or_false : (b : Bool) → b || false ≡ b
or_false true = refl
or_false false = refl

or_true : (b x : Bool) → true || x ≡ b || (true || x)
or_true true x = refl
or_true false x = refl

pub extend_nil : (o : CliOptions) → extend o [] ≡ o
extend_nil o = λ i. record {
  config_path = o.config_path;
  ifaces = append-nil o.ifaces i;
  route_spec = o.route_spec;
  record_packets = or_false o.record_packets i;
  debug_packets = or_false o.debug_packets i;
  bidirectional_route = or_false o.bidirectional_route i;
  scan_only = or_false o.scan_only i;
}

pub extend-step :
    (w : Word) (o : CliOptions) (ws : List Word) → extend (step w o) ws ≡ extend o (w ∷ ws)
extend-step (use_config path) o ws = refl
extend-step (use_iface name) o ws =
    ap (λ l. record (extend o (use_iface name ∷ ws)) { ifaces = l })
      (append_assoc o.ifaces (name ∷ []) (all_ifaces ws))
extend-step (use_route spec) o ws = refl
extend-step both_ways o ws =
    ap (λ b. record (extend o (both_ways ∷ ws)) { bidirectional_route = b })
      (or_true o.bidirectional_route (asked is_both_ways ws))
extend-step just_scan o ws =
    ap (λ b. record (extend o (just_scan ∷ ws)) { scan_only = b })
      (or_true o.scan_only (asked is_just_scan ws))
extend-step keep_packets o ws =
    ap (λ b. record (extend o (keep_packets ∷ ws)) { record_packets = b })
      (or_true o.record_packets (asked is_keep_packets ws))
extend-step show_packets o ws =
    ap (λ b. record (extend o (show_packets ∷ ws)) { debug_packets = b })
      (or_true o.debug_packets (asked is_show_packets ws))

-- what an argument is to the loop
pub data View (arg : Text) : Type 0 where
  valued :
      (word : Text → Word)
      → takes_value (flag_of arg) ≡ true
      → ((v : Text) → spell (word v) ≡ arg ∷ v ∷ [])
      → ((v : Text) (o : CliOptions) → assign (flag_of arg) v o ≡ some (step (word v) o))
      → View arg
  plain :
      (word : Word)
      → takes_value (flag_of arg) ≡ false
      → spell word ≡ arg ∷ []
      → ((o : CliOptions) → switch (flag_of arg) o ≡ some (step word o))
      → View arg
  foreign :
      takes_value (flag_of arg) ≡ false
      → ((o : CliOptions) → switch (flag_of arg) o ≡ none)
      → View arg

pub view : (arg : Text) → View arg
view arg = elim (Bool-cases (same_text arg (codes "-c"))) [
  | inl p ↦ known (codes "-c") p (valued (λ v. use_config v) refl (λ v. refl) (λ v o. refl))
  | inr c ↦ elim (Bool-cases (same_text arg (codes "-i"))) [
    | inl p ↦ known (codes "-i") p (valued (λ v. use_iface v) refl (λ v. refl) (λ v o. refl))
    | inr i ↦ elim (Bool-cases (same_text arg (codes "--route"))) [
      | inl p ↦ known (codes "--route") p (valued (λ v. use_route v) refl (λ v. refl) (λ v o. refl))
      | inr r ↦ elim (Bool-cases (same_text arg (codes "--bidirectional"))) [
        | inl p ↦ known (codes "--bidirectional") p (plain both_ways refl refl (λ o. refl))
        | inr b ↦ elim (Bool-cases (same_text arg (codes "-s"))) [
          | inl p ↦ known (codes "-s") p (plain just_scan refl refl (λ o. refl))
          | inr s ↦ elim (Bool-cases (same_text arg (codes "-r"))) [
            | inl p ↦ known (codes "-r") p (plain keep_packets refl refl (λ o. refl))
            | inr k ↦ elim (Bool-cases (same_text arg (codes "-d"))) [
              | inl p ↦ known (codes "-d") p (plain show_packets refl refl (λ o. refl))
              | inr d ↦ foreign (rw (c, i, r, b, s, k, d)) (λ o. rw (c, i, r, b, s, k, d))
            ]
          ]
        ]
      ]
    ]
  ]
]
  where
    known : (word : Text) → same_text arg word ≡ true → View word → View arg
    known word p v = subst View (sym (same_text-eq arg word p)) v
