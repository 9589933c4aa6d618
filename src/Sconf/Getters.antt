-- ===== src/Sconf/Getters.antt =====
-- sconf/TierConf.go: the typed getters. The separator of a list is one byte. An integer is read for the
-- width that it is converted to, so the conversion behind it changes nothing; of an error only that
-- there is one is kept. The getters of floats are left out.
use sutil.Prelude.Text.{Bytes, codes, split, text_eq}
use sutil.Prelude.Decimal.{parse_uint}
use sutil.Mq.{ℤ, pos, negsuc}
use sutil.Sconf.{Conf, Result, ok, err, stuck, to_string}
use sutil.Sconf.Refs.{trim}
use sutil.Prelude.{
  ℕ, zero, suc, ◌-◌, ◌^◌, Bool, true, false, ◌||◌, Option, none, some, List, [], ◌∷◌, ltb, ◌==◌,
  if◌then◌else◌, map,
}

-- Go's (value, error); `lost` is no Go value: it stands for the `stuck` of the expansion
pub data Got {ℓ} (A : Type ℓ) : Type ℓ where
  got : A → Got A
  failed : Got A
  lost : Got A

unfoldable pub signed : Bool → ℕ → Option ℕ → Option ℤ
signed minus bits none = none
signed false bits (some n) = if ltb n (2 ^ (bits - 1)) then some (pos n) else none
signed true bits (some zero) = some (pos 0)
signed true bits (some (suc n)) = if ltb n (2 ^ (bits - 1)) then some (negsuc n) else none

-- `strconv.ParseInt` at base 10; `strconv.Atoi` is that at 64 bits
unfoldable pub parse_int : Bytes → ℕ → Option ℤ
unfolding signed parse_uint
parse_int [] bits = none
parse_int (c ∷ s) bits =
    if c == b'-'
    then signed true bits (parse_uint s bits)
    else if c == b'+'
    then signed false bits (parse_uint s bits)
    else signed false bits (parse_uint (c ∷ s) bits)

unfoldable pub is_one_of : Bytes → List Bytes → Bool
unfolding text_eq
is_one_of s [] = false
is_one_of s (t ∷ ts) = text_eq s t || is_one_of s ts

-- `strconv.ParseBool`
unfoldable pub parse_bool : Bytes → Option Bool
unfolding is_one_of
parse_bool s =
    if is_one_of s
      (codes "1" ∷ codes "t" ∷ codes "T" ∷ codes "TRUE" ∷ codes "true" ∷ codes "True" ∷ [])
    then some true
    else if is_one_of s
        (codes "0" ∷ codes "f" ∷ codes "F" ∷ codes "FALSE" ∷ codes "false" ∷ codes "False" ∷ [])
    then some false
    else none

abbrev pub of_option {ℓ} : {A : Type ℓ} → Option A → Got A
of_option (some a) = got a
of_option none = failed

abbrev pub parsed {ℓ} : {A : Type ℓ} → (Bytes → Option A) → Result → Got A
parsed parse (ok v) = of_option (parse v)
parsed parse (err e) = failed
parsed parse stuck = lost

-- the value, or the default in place of an error
abbrev pub or_deft {ℓ} : {A : Type ℓ} → A → Got A → Option A
or_deft deft (got a) = some a
or_deft deft failed = some deft
or_deft deft lost = none

abbrev pub then_each : Option ℤ → Option (List ℤ) → Option (List ℤ)
then_each (some n) (some ns) = some (n ∷ ns)
then_each (some n) none = none
then_each none rest = none

-- the loop of `ToSliceInt`
unfoldable pub parse_all : List Bytes → Option (List ℤ)
unfolding parse_int
parse_all [] = some []
parse_all (v ∷ vs) = then_each (parse_int v 64) (parse_all vs)

abbrev pub bind_got {ℓ κ} : {A : Type ℓ} {B : Type κ} → Got A → (A → Option B) → Got B
bind_got (got a) f = of_option (f a)
bind_got failed f = failed
bind_got lost f = lost

module _ (conf : Conf) (section property : Bytes) where
  unfoldable pub to_string_with_default : Bytes → Option Bytes
  unfolding to_string
  to_string_with_default deft = or_deft deft (parsed some (to_string conf section property))

  unfoldable pub to_int : Got ℤ
  unfolding to_string parse_int
  to_int = parsed (λ v. parse_int v 64) (to_string conf section property)

  unfoldable pub to_int32 : Got ℤ
  unfolding to_string parse_int
  to_int32 = parsed (λ v. parse_int v 32) (to_string conf section property)

  unfoldable pub to_int64 : Got ℤ
  unfolding to_string parse_int
  to_int64 = parsed (λ v. parse_int v 64) (to_string conf section property)

  unfoldable pub to_uint64 : Got ℕ
  unfolding to_string parse_uint
  to_uint64 = parsed (λ v. parse_uint v 64) (to_string conf section property)

  unfoldable pub to_uint32 : Got ℕ
  unfolding to_string parse_uint
  to_uint32 = parsed (λ v. parse_uint v 32) (to_string conf section property)

  unfoldable pub to_bool : Got Bool
  unfolding to_string parse_bool
  to_bool = parsed parse_bool (to_string conf section property)

  unfoldable pub to_bool_with_default : Bool → Option Bool
  unfolding to_bool
  to_bool_with_default deft = or_deft deft to_bool

  unfoldable pub to_int_with_default : ℤ → Option ℤ
  unfolding to_int
  to_int_with_default deft = or_deft deft to_int

  unfoldable pub to_slice_string : ℕ → Got (List Bytes)
  unfolding to_string trim split
  to_slice_string sep =
      parsed (λ v. some (map (trim (codes " \t")) (split v sep))) (to_string conf section property)

  unfoldable pub to_slice_string_with_default : ℕ → List Bytes → Option (List Bytes)
  unfolding to_slice_string
  to_slice_string_with_default sep deft = or_deft deft (to_slice_string sep)

  unfoldable pub to_slice_int : ℕ → Got (List ℤ)
  unfolding to_slice_string parse_all
  to_slice_int sep = bind_got (to_slice_string sep) parse_all
