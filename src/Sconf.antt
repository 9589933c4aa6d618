-- ===== src/Sconf.antt =====
-- sconf/TierConf.go: the two-level configuration, how sources are merged into it, and the expansion of
-- `${section.property}` references with its check for cycles.
pub mod Refs
pub mod Load
pub mod Expansion
pub mod Termination
pub mod Getters
pub mod Values
mod Tests
use sutil.Sconf.Refs.{Found, find_all, trim}
use sutil.Prelude.{
  ℕ, zero, suc, ◌+◌, Bool, false, ◌||◌, Option, none, some, List, [], ◌∷◌, ◌++◌, if◌then◌else◌,
  length, take, drop,
}
use sutil.Prelude.Text.{Bytes, codes, text_eq, contains, index}
use sutil.Prelude.Maps.{Dict, lookup, store}

-- `map[string]map[string]string`
abbrev pub Conf : Type 0
Conf = Dict (Dict Bytes)

-- `if _, ok := m.conf[name]; !ok { m.conf[name] = make(…) }`
abbrev pub section_or_new : Option (Dict Bytes) → Dict Bytes
section_or_new none = []
section_or_new (some s) = s

-- `for k, v := range section { m.conf[name][k] = v }`
unfoldable pub load_section : Dict Bytes → Dict Bytes → Dict Bytes
load_section into [] = into
load_section into ((k, v) ∷ section) = load_section (store k v into) section

-- `LoadFromConf`, and `Load` behind `ini.Load`
unfoldable pub load_from_conf : Conf → Conf → Conf
unfolding load_section
load_from_conf conf [] = conf
load_from_conf conf ((name, section) ∷ cfg) =
    load_from_conf (store name (load_section (section_or_new (lookup name conf)) section) conf) cfg

-- Go's (string, error); `stuck` is no Go value: the model's recursion ran out of fuel
pub data Result : Type 0 where
  ok : Bytes → Result
  err : Bytes → Result
  stuck : Result

-- `fmt.Errorf("section empty:%s", section)` and the other two
abbrev pub section_empty : Bytes → Bytes
section_empty section = codes "section empty:" ++ section

abbrev pub property_empty : Bytes → Bytes → Bytes
property_empty section property = codes "property empty:" ++ (section ++ (b'.' ∷ property))

abbrev pub cyclic : Bytes → Bytes
cyclic his = codes "cyclic reference:${" ++ (his ++ b'}' ∷ [])

-- `ToSection` and the lookup behind it in `toString`
unfoldable pub find : Conf → Bytes → Bytes → Result
find conf section property = elim (lookup section conf) [
  | none ↦ err (section_empty section)
  | some s ↦ elim (lookup property s) [
    | none ↦ err (property_empty section property)
    | some p ↦ ok p
  ]
]

-- `for _, his := range history { if newhis == his … }`
unfoldable pub in_history : Bytes → List Bytes → Bool
in_history newhis [] = false
in_history newhis (his ∷ history) = text_eq newhis his || in_history newhis history

-- what a reference stands for, from the result of `m.toString` on it: a cycle is passed on, any other
-- error leaves the reference as it is written
unfoldable pub or_verbatim : Bytes → Result → Result
or_verbatim pv (ok newval) = ok newval
or_verbatim pv (err e) = if contains e (codes "cyclic reference") then err e else ok pv
or_verbatim pv stuck = stuck

-- one reference `pv`; `expand` is `m.toString`
unfoldable pub one_ref : (List Bytes → Bytes → Bytes → Result) → List Bytes → Bytes → Result
unfolding or_verbatim
one_ref expand history pv =
    let v = trim (codes " \t${}") pv in
    elim (index v b'.') [
      | none ↦ ok pv
      | some tmp ↦
          let trims = trim (codes " \t") (take tmp v) in
          let trimp = trim (codes " \t") (drop (suc tmp) v) in
          let newhis = trims ++ (b'.' ∷ trimp) in
          if in_history newhis history
          then err (cyclic newhis)
          else or_verbatim pv (expand (history ++ newhis ∷ []) trims trimp)
    ]

abbrev pub prefix : Bytes → Result → Result
prefix s (ok t) = ok (s ++ t)
prefix s (err e) = err e
prefix s stuck = stuck

-- `rv += …` behind one reference, then the rest of the loop
abbrev pub then_rest : Result → Result → Result
then_rest (ok s) rest = prefix s rest
then_rest (err e) rest = err e
then_rest stuck rest = stuck

-- the loop of `parseVar` over the matches, each with the text before it, and the text behind the last
unfoldable pub parse_refs :
    (List Bytes → Bytes → Bytes → Result) → List Bytes → List Found → Bytes → Result
parse_refs expand history [] behind = ok behind
parse_refs expand history (f ∷ fs) behind =
    prefix f.lead (then_rest (one_ref expand history f.ref) (parse_refs expand history fs behind))

-- `parseVar`
unfoldable pub parse_var : (List Bytes → Bytes → Bytes → Result) → List Bytes → Bytes → Result
parse_var expand history value =
    let (fs, behind) = find_all value in parse_refs expand history fs behind

-- `toString`; each level of references takes one unit of fuel
unfoldable pub expand : ℕ → Conf → List Bytes → Bytes → Bytes → Result
expand zero conf history section property = stuck
expand (suc fuel) conf history section property = elim (find conf section property) [
  | ok p ↦ parse_var (expand fuel conf) history p
  | err e ↦ err e
  | stuck ↦ stuck
]

-- the number of properties of a configuration
unfoldable pub size : Conf → ℕ
size [] = 0
size ((name, s) ∷ conf) = length s + size conf

-- `ToString`: the fuel is one more level than there are properties
unfoldable pub to_string : Conf → Bytes → Bytes → Result
to_string conf section property = expand (suc (suc (size conf))) conf [] section property
