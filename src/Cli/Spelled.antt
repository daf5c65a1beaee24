-- ===== src/Cli/Spelled.antt =====
-- src/ElephantShrewMain.cpp: which command lines `ParseArguments` accepts.
use mathlib.Core.Path.{subst}
use elephant_shrew.Prelude.{
  ◌≡◌, ◌↔◌, refl, sym, ap, ◌∙◌, inl, inr, Bool, true, false, ◌&&◌, not, List, [], ◌∷◌, ◌++◌, Option,
  none, some, some_inj, ◌>>=◌, codes, Bool-cases, Option-cases,
}
use elephant_shrew.Config.{Text}
use elephant_shrew.Cli.{
  CliOptions, no_options, flag_of, switch, assign, takes_value, read_arguments, is_set, has_ifaces,
  scan_conflicts, check_options, parse_arguments,
}
use elephant_shrew.Cli.Effective.{IsCommand, check_options-IsCommand}
use elephant_shrew.Cli.Words.{
  Word, use_config, use_iface, use_route, both_ways, just_scan, keep_packets, show_packets, spelled,
  extend, step, extend_nil, extend-step, View, valued, plain, foreign, view,
}

bind_some : {A : Type 0} (o : Option A) → (o >>= (λ a. some a)) ≡ o
bind_some none = refl
bind_some (some a) = refl

read_plain :
    (arg : Text) (args : List Text) (o : CliOptions)
    → takes_value (flag_of arg) ≡ false
    → read_arguments (arg ∷ args) o ≡ (switch (flag_of arg) o >>= read_arguments args)
unfolding read_arguments
read_plain arg [] o h = rw h (sym (bind_some (switch (flag_of arg) o)))
read_plain arg (value ∷ args) o h = rw h refl

read_valued :
    (arg value : Text) (args : List Text) (o : CliOptions)
    → takes_value (flag_of arg) ≡ true
    → read_arguments (arg ∷ value ∷ args) o ≡ (assign (flag_of arg) value o >>= read_arguments args)
unfolding read_arguments
read_valued arg value args o h = rw h refl

read_spelled :
    (ws : List Word) (o : CliOptions) → read_arguments (spelled ws) o ≡ some (extend o ws)
unfolding read_arguments
read_spelled [] o = ap some (sym (extend_nil o))
read_spelled (use_config path ∷ ws) o = read_spelled ws (step (use_config path) o)
read_spelled (use_iface name ∷ ws) o =
    read_spelled ws (step (use_iface name) o) ∙ ap some (extend-step (use_iface name) o ws)
read_spelled (use_route spec ∷ ws) o = read_spelled ws (step (use_route spec) o)
read_spelled (both_ways ∷ ws) o =
    read_plain (codes "--bidirectional") (spelled ws) o refl
    ∙ (read_spelled ws (step both_ways o) ∙ ap some (extend-step both_ways o ws))
read_spelled (just_scan ∷ ws) o =
    read_plain (codes "-s") (spelled ws) o refl
    ∙ (read_spelled ws (step just_scan o) ∙ ap some (extend-step just_scan o ws))
read_spelled (keep_packets ∷ ws) o =
    read_plain (codes "-r") (spelled ws) o refl
    ∙ (read_spelled ws (step keep_packets o) ∙ ap some (extend-step keep_packets o ws))
read_spelled (show_packets ∷ ws) o =
    read_plain (codes "-d") (spelled ws) o refl
    ∙ (read_spelled ws (step show_packets o) ∙ ap some (extend-step show_packets o ws))

none-some : {A : Type 0} {a : A} → none ≡ some a → ⊥
none-some h = cc

-- arguments that are read are the spelling of some words, which add up to the options
Read : List Text → CliOptions → CliOptions → Type 0
Read args o o' = (ws : List Word) × (args ≡ spelled ws) × (o' ≡ extend o ws)

read_arguments-Read :
    (args : List Text) (o : CliOptions) {o' : CliOptions}
    → read_arguments args o ≡ some o'
    → Read args o o'
unfolding Read read_arguments
read_arguments-Read [] o e = ([], refl, sym (some_inj e) ∙ sym (extend_nil o))
read_arguments-Read (arg ∷ []) o {o'} e = go (view arg)
  where
    go : View arg → Read (arg ∷ []) o o'
    go (valued word h spelling meaning) = absurd (none-some (rw h at e))
    go (plain word h spelling meaning) = (
      word ∷ [],
      ap (λ l. l ++ []) (sym spelling),
      sym (some_inj (sym (rw h (meaning o)) ∙ e))
          ∙ (sym (extend_nil (step word o)) ∙ extend-step word o []),
    )
    go (foreign h meaning) = absurd (none-some (sym (rw h (meaning o)) ∙ e))
read_arguments-Read (arg ∷ value ∷ args) o {o'} e = elim (view arg) [
  | valued word h spelling meaning ↦
      let rest : read_arguments args (step (word value) o) ≡ some o' =
        ap (λ r. r >>= read_arguments args) (sym (meaning value o))
        ∙ (sym (read_valued arg value args o h) ∙ e) in
      let (ws, p, q) = read_arguments-Read args (step (word value) o) rest in
      (word value ∷ ws, λ i. sym (spelling value) i ++ p i, q ∙ extend-step (word value) o ws)
  | plain word h spelling meaning ↦
      let rest : read_arguments (value ∷ args) (step word o) ≡ some o' =
        ap (λ r. r >>= read_arguments (value ∷ args)) (sym (meaning o))
        ∙ (sym (read_plain arg (value ∷ args) o h) ∙ e) in
      let (ws, p, q) = read_arguments-Read (value ∷ args) (step word o) rest in
      (word ∷ ws, λ i. sym spelling i ++ p i, q ∙ extend-step word o ws)
  | foreign h meaning ↦ absurd (
      none-some (
        ap (λ r. r >>= read_arguments (value ∷ args)) (sym (meaning o))
        ∙ (sym (read_plain arg (value ∷ args) o h) ∙ e)))
]

has_ifaces_of : (o : CliOptions) → o.ifaces ≡ [] → has_ifaces o ≡ false
has_ifaces_of o h = ap (λ l. elim l as (λ _. Bool) [ [] ↦ false | i ∷ is ↦ true ]) h

check_options_of : (o : CliOptions) → IsCommand o → check_options o ≡ some o
unfolding check_options
check_options_of o v = rw (alone, routed, two_ways, check_options)
  where
    alone : scan_conflicts o ≡ false
    alone = elim (Bool-cases o.scan_only) [
      | inr s ↦ rw s
      | inl s ↦ let (a, b, c, d, e) = v.scan_alone s in rw (s, has_ifaces_of o a, b, c, d, e)
    ]

    routed : (is_set o.route_spec && has_ifaces o) ≡ false
    routed = elim (Bool-cases (is_set o.route_spec)) [
      | inr s ↦ rw s
      | inl s ↦ rw (s, has_ifaces_of o (v.route_or_ifaces s))
    ]

    two_ways : (o.bidirectional_route && not (is_set o.route_spec)) ≡ false
    two_ways = elim (Bool-cases o.bidirectional_route) [
      | inr s ↦ rw s
      | inl s ↦ rw (s, v.both_ways_routed s)
    ]

-- The arguments are accepted exactly when they spell words that may stand together: a scan alone, a route without `-i`,
-- and `--bidirectional` only with a route. The options then are what the words say: the last path and the last
-- route, all interfaces in their order, and each flag that is given.
pub parse_arguments_iff :
    (args : List Text) (o : CliOptions)
    → (parse_arguments args ≡ some o)
      ↔ ((ws : List Word) × (args ≡ spelled ws) × (o ≡ extend no_options ws) × IsCommand o)
unfolding parse_arguments Read
parse_arguments_iff args o = (sound, complete)
  where
    sound :
        parse_arguments args ≡ some o
        → (ws : List Word) × (args ≡ spelled ws) × (o ≡ extend no_options ws) × IsCommand o
    sound e = elim (Option-cases (read_arguments args no_options)) [
      | inl p ↦ absurd (none-some (rw (p, parse_arguments) at e))
      | inr (o', p) ↦
          let (same, v) = check_options-IsCommand o' (rw (p, parse_arguments) at e) in
          let (ws, q, r) = read_arguments-Read args no_options p in
          (ws, q, sym same ∙ r, subst IsCommand same v)
    ]

    complete :
        (ws : List Word) × (args ≡ spelled ws) × (o ≡ extend no_options ws) × IsCommand o
        → parse_arguments args ≡ some o
    complete (ws, p, q, v) =
        let read : read_arguments args no_options ≡ some o =
          ap (λ l. read_arguments l no_options) p
          ∙ (read_spelled ws no_options ∙ ap some (sym q)) in
        rw (read, check_options_of o v, parse_arguments)
