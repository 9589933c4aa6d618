-- ===== src/Dbrouter/Groups.antt =====
-- Which instances the groups of a loaded configuration have.
use sutil.Prelude.Text.{Bytes, text_eq, text_eq_iff, text_eq_refl}
use sutil.Prelude.Maps.{Dict, lookup, store, lookup-store, has, has-store, length-store}
use sutil.Dbrouter.Parser.{
  DbInsInfo, DbIns, DbInsCfg, ItemDbInsCfg, Access, parse_db_ins, map_or_new, put_info, put_items,
  put_instance, group_size, sizes_agree, default_group,
}
use sutil.Prelude.{
  ◌+◌, ◌≡◌, ◌⊎◌, true, false, Option, none, some, List, [], ◌∷◌, arith, if◌then◌else◌, length, ℕ,
  refl, ◌≢◌,
}

unfoldable pub map_at : Bytes → DbIns → Dict DbInsInfo
unfolding map_or_new
map_at g s = map_or_new (lookup g s)

-- From `s` to `t`, groups changed at the name `inst` only.
abbrev pub Grown : Bytes → DbIns → DbIns → Type 0
Grown inst s t =
    (g k : Bytes)
    → (text_eq inst k ≡ false → has k (map_at g t) ≡ has k (map_at g s))
      × (has inst (map_at g s) ≡ true → has inst (map_at g t) ≡ true)
      × (length (map_at g t) + (if has inst (map_at g s) then 1 else 0)
          ≡ length (map_at g s) + (if has inst (map_at g t) then 1 else 0))
      × (has g t ≡ true → (has g s ≡ true) ⊎ (has inst (map_at g t) ≡ true))

Grown-refl : (inst : Bytes) (s : DbIns) → Grown inst s s
Grown-refl inst s g k = ground arith

Grown-trans : (inst : Bytes) (s t u : DbIns) → Grown inst s t → Grown inst t u → Grown inst s u
Grown-trans inst s t u a b g k = ground (arith, a g k, b g k)

map_at-put_info :
    (g h inst : Bytes) (info : DbInsInfo) (s : DbIns)
    → map_at h (put_info g inst (some info) s)
      ≡ (if text_eq g h then store inst info (map_at h s) else map_at h s)
unfolding map_at put_info map_or_new
map_at-put_info g h inst info s =
    ground (arith, lookup-store g h (store inst info (map_or_new (lookup g s))) s, text_eq_iff g h)

Grown-put_info :
    (g inst : Bytes) (info : Option DbInsInfo) (s : DbIns) → Grown inst s (put_info g inst info s)
unfolding put_info
Grown-put_info g inst none s h k = ground arith
Grown-put_info g inst (some info) s h k = ground (
  arith,
  map_at-put_info g h inst info s,
  has-store inst k info (map_at h s),
  has-store inst inst info (map_at h s),
  length-store inst info (map_at h s),
  text_eq_refl inst,
  has-store g h (store inst info (map_or_new (lookup g s))) s,
  text_eq_iff g h,
)

Grown-put_items :
    (unmarshal : Bytes → Option Access) (db : DbInsCfg) (inst : Bytes) (items : List ItemDbInsCfg)
    (s : DbIns)
    → Grown inst s (put_items unmarshal db inst items s)
unfolding put_items
Grown-put_items unmarshal db inst [] s = Grown-refl inst s
Grown-put_items unmarshal db inst (i ∷ items) s =
    Grown-trans inst s (put_info i.item_group inst (parse_db_ins unmarshal db inst i.item_dbcfg) s)
      _ (Grown-put_info i.item_group inst (parse_db_ins unmarshal db inst i.item_dbcfg) s)
      (Grown-put_items unmarshal db inst items _)

pub Grown-put_instance :
    (unmarshal : Bytes → Option Access) (inst : Bytes) (db : DbInsCfg) (s : DbIns)
    → Grown inst s (put_instance unmarshal inst db s)
unfolding put_instance
Grown-put_instance unmarshal inst db s =
    Grown-trans inst s (put_info default_group inst (parse_db_ins unmarshal db inst db.dbcfg) s) _
      (Grown-put_info default_group inst (parse_db_ins unmarshal db inst db.dbcfg) s)
      (Grown-put_items unmarshal db inst db.ins _)

default-put_info :
    (inst : Bytes) (info : Option DbInsInfo) (s : DbIns)
    → info ≢ none
    → has inst (map_at default_group (put_info default_group inst info s)) ≡ true
default-put_info inst none s parses = ground arith
default-put_info inst (some info) s parses = ground (
  arith,
  map_at-put_info default_group default_group inst info s,
  has-store inst inst info (map_at default_group s),
  text_eq_refl inst,
  text_eq_refl default_group,
)

-- where the default configuration parses, the default group has the instance afterwards
pub default-put_instance :
    (unmarshal : Bytes → Option Access) (inst : Bytes) (db : DbInsCfg) (s : DbIns)
    → parse_db_ins unmarshal db inst db.dbcfg ≢ none
    → has inst (map_at default_group (put_instance unmarshal inst db s)) ≡ true
unfolding put_instance
default-put_instance unmarshal inst db s parses = ground (
  arith,
  default-put_info inst (parse_db_ins unmarshal db inst db.dbcfg) s,
  Grown-put_items unmarshal db inst db.ins
      (put_info default_group inst (parse_db_ins unmarshal db inst db.dbcfg) s) default_group inst,
)

-- Every group has the names of the default group, and as many.
abbrev pub Agree : DbIns → Type 0
Agree s =
    (g k : Bytes)
    → has g s ≡ true
    → (has k (map_at g s) ≡ has k (map_at default_group s))
      × (length (map_at g s) ≡ length (map_at default_group s))

has-empty : (k : Bytes) (m : Dict DbInsInfo) → length m ≡ 0 → has k m ≡ false
unfolding has
has-empty k [] h = refl
has-empty k ((j, v) ∷ m) h = ground arith

map_at-absent : (g : Bytes) (s : DbIns) → has g s ≡ false → map_at g s ≡ []
unfolding map_at map_or_new has lookup
map_at-absent g [] h = refl
map_at-absent g ((j, m) ∷ s) h = ground (arith, map_at-absent g s)

size_of_group :
    (n : ℕ) (g : Bytes) (s : DbIns)
    → sizes_agree n s ≡ true
    → has g s ≡ true
    → length (map_at g s) ≡ n
unfolding map_at map_or_new has lookup sizes_agree
size_of_group n g [] a h = ground arith
size_of_group n g ((j, m) ∷ s) a h = ground (arith, size_of_group n g s)

abbrev no_names : Dict DbInsInfo
no_names = []

has-nil : (k : Bytes) → has k no_names ≡ false
unfolding has
has-nil k = refl

pub Agree-step :
    (inst : Bytes) (s t : DbIns)
    → Agree s
    → Grown inst s t
    → ((g : Bytes) → has inst (map_at g s) ≡ false)
    → has inst (map_at default_group t) ≡ true
    → sizes_agree (group_size default_group t) t ≡ true
    → Agree t
unfolding group_size map_at
Agree-step inst s t agree grown fresh there sizes g k h = ground (
  arith,
  agree g k,
  grown g k,
  grown default_group k,
  fresh g,
  fresh default_group,
  size_of_group (group_size default_group t) g t sizes h,
  has-empty k (map_at default_group s),
  map_at-absent g s,
  text_eq_iff inst k,
  has-nil k,
)
