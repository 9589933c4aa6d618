-- ===== src/Mq/Keys.antt =====
-- The printed form of an instance's configuration is read back.
use std.Path.{subst}
use sutil.Prelude.Text.{Bytes, Lacks, join, split-join}
use sutil.Mq.{
  ℤ, pos, negsuc, MqRoleType, reader, writer, delay_client, InstanceConf, role_number,
  role_from_int, conf_string, conf_of_items, conf_from_string,
}
use sutil.Prelude.{ℕ, ◌≡◌, refl, Option, some, [], ◌∷◌, sym, suc, none, arith}

-- strconv.Atoi reads what the verb %d prints, and a number without a sign prints without a dash.
abbrev pub Prints : (ℤ → Bytes) → (Bytes → Option ℤ) → Type 0
Prints itoa atoi = ((n : ℤ) → atoi (itoa n) ≡ some n) × ((n : ℕ) → Lacks b'-' (itoa (pos n)))

-- a configuration whose printed form can be read: no dash in its names or in its partition
unfoldable pub HasKey : InstanceConf → Type 0
HasKey c =
    Lacks b'-' c.group
    × Lacks b'-' c.topic
    × Lacks b'-' c.group_id
    × ((n : ℕ) × (c.partition ≡ pos n))

role_from_int-role_number : (r : MqRoleType) → role_from_int (role_number r) ≡ some r
unfolding role_from_int role_number
role_from_int-role_number reader = refl
role_from_int-role_number writer = refl
role_from_int-role_number delay_client = refl

role_number-Lacks :
    (itoa : ℤ → Bytes) (atoi : Bytes → Option ℤ) (r : MqRoleType)
    → Prints itoa atoi
    → Lacks b'-' (itoa (role_number r))
unfolding role_number
role_number-Lacks itoa atoi reader (reads, plain) = plain 0
role_number-Lacks itoa atoi writer (reads, plain) = plain 1
role_number-Lacks itoa atoi delay_client (reads, plain) = plain 2

conf_of_items-fields :
    (itoa : ℤ → Bytes) (atoi : Bytes → Option ℤ) (c : InstanceConf)
    → Prints itoa atoi
    → conf_of_items atoi
        (c.group ∷ itoa (role_number c.role) ∷ c.topic ∷ c.group_id ∷ itoa c.partition ∷ [])
      ≡ some c
unfolding conf_of_items
conf_of_items-fields itoa atoi c (reads, plain) =
    simp (reads (role_number c.role), reads c.partition, role_from_int-role_number c.role)

-- The printed form of a configuration without dashes in its names and with a partition that is not
-- negative is read back as that configuration.
pub conf_from_string-conf_string :
    (itoa : ℤ → Bytes) (atoi : Bytes → Option ℤ) (c : InstanceConf)
    → Prints itoa atoi
    → HasKey c
    → conf_from_string atoi (conf_string itoa c) ≡ some c
unfolding conf_from_string conf_string HasKey
conf_from_string-conf_string itoa atoi c prints (g, t, i, (n, p)) = ground (
  arith,
  split-join c.group (itoa (role_number c.role) ∷ c.topic ∷ c.group_id ∷ itoa c.partition ∷ []) b'-'
      g
      (
        role_number-Lacks itoa atoi c.role prints,
        (t, (i, (subst (λ x. Lacks b'-' (itoa x)) (sym p) (prints.1 n), tt))),
      ),
  conf_of_items-fields itoa atoi c prints,
)

-- The printed form of a configuration with a negative partition, whose number begins with a dash, is
-- never read back.
pub conf_from_string-negative :
    (itoa : ℤ → Bytes) (atoi : Bytes → Option ℤ) (c : InstanceConf) (n : ℕ)
    → Prints itoa atoi
    → Lacks b'-' c.group
    → Lacks b'-' c.topic
    → Lacks b'-' c.group_id
    → itoa (negsuc n) ≡ b'-' ∷ itoa (pos (suc n))
    → c.partition ≡ negsuc n
    → conf_from_string atoi (conf_string itoa c) ≡ none
unfolding conf_from_string conf_string join conf_of_items
conf_from_string-negative itoa atoi c n prints g t i dash p = ground (
  arith,
  dash,
  p,
  split-join c.group
      (itoa (role_number c.role) ∷ c.topic ∷ c.group_id ∷ [] ∷ itoa (pos (suc n)) ∷ []) b'-' g
      (role_number-Lacks itoa atoi c.role prints, (t, (i, (tt, (prints.1 (suc n), tt))))),
)
