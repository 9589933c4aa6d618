-- ===== src/Sconf/Load.antt =====
-- Merging a source into a configuration.
use sutil.Sconf.{Conf, section_or_new, load_section, load_from_conf}
use sutil.Prelude.{
  ◌≡◌, refl, Option, none, some, [], ◌∷◌, arith, if◌then◌else◌, Option-cases, All, inl, inr,
}
use sutil.Prelude.Text.{Bytes, text_eq, text_eq_iff}
use sutil.Prelude.Maps.{Dict, lookup, store, lookup-store}

-- no key twice, as in a Go map
abbrev pub Distinct {ℓ} : {V : Type ℓ} → Dict V → Type ℓ
Distinct [] = Unit
Distinct ((k, v) ∷ m) = (lookup k m ≡ none) × Distinct m

abbrev pub IsConf : Conf → Type 0
IsConf conf = Distinct conf × All (λ e. Distinct e.1) conf

-- the value of a property, with no expansion
unfoldable pub get : Conf → Bytes → Bytes → Option Bytes
get conf s p = elim (lookup s conf) [ none ↦ none | some d ↦ lookup p d ]

abbrev pub or_else {ℓ} : {A : Type ℓ} → Option A → Option A → Option A
or_else none b = b
or_else (some a) b = some a

lookup-load_section :
    (section into : Dict Bytes) (p : Bytes)
    → Distinct section
    → lookup p (load_section into section) ≡ or_else (lookup p section) (lookup p into)
unfolding load_section lookup
lookup-load_section [] into p d = refl
lookup-load_section ((k, v) ∷ section) into p (new, d) = ground (
  arith,
  lookup-load_section section (store k v into) p d,
  lookup-store k p v into,
  text_eq_iff k p,
  Option-cases (lookup p section),
)

get_cons :
    (name : Bytes) (section : Dict Bytes) (conf : Conf) (s p : Bytes)
    → get ((name, section) ∷ conf) s p ≡ (if text_eq name s then lookup p section else get conf s p)
unfolding get lookup
get_cons name section conf s p = ground arith

get-store :
    (name : Bytes) (section : Dict Bytes) (conf : Conf) (s p : Bytes)
    → get (store name section conf) s p
      ≡ (if text_eq name s then lookup p section else get conf s p)
unfolding get
get-store name section conf s p = ground (arith, lookup-store name s section conf)

get_missing : (conf : Conf) (s p : Bytes) → lookup s conf ≡ none → get conf s p ≡ none
unfolding get
get_missing conf s p h = ground arith

lookup-section_or_new :
    (conf : Conf) (s p : Bytes) → lookup p (section_or_new (lookup s conf)) ≡ get conf s p
unfolding get
lookup-section_or_new conf s p = elim (Option-cases (lookup s conf)) [
  | inl e ↦ rw (e, get) (unfold lookup in refl)
  | inr (d, e) ↦ rw (e, get)
]

-- What is loaded takes precedence, property by property; every other property keeps its value. It
-- does not matter in which order the sections and properties of the source are visited.
pub get-load_from_conf :
    (cfg conf : Conf) (s p : Bytes)
    → IsConf cfg
    → get (load_from_conf conf cfg) s p ≡ or_else (get cfg s p) (get conf s p)
unfolding load_from_conf
get-load_from_conf [] conf s p h = unfold get lookup in refl
get-load_from_conf ((name, section) ∷ cfg) conf s p ((new, d), (inner, inners)) = ground (
  arith,
  get-load_from_conf cfg
      (store name (load_section (section_or_new (lookup name conf)) section) conf) s p (d, inners),
  get-store name (load_section (section_or_new (lookup name conf)) section) conf s p,
  lookup-load_section section (section_or_new (lookup name conf)) p inner,
  lookup-section_or_new conf name p,
  get_cons name section cfg s p,
  get_missing cfg name p new,
  text_eq_iff name s,
  Option-cases (get cfg s p),
)
