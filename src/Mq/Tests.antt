-- ===== src/Mq/Tests.antt =====
-- The instances of a message queue client at concrete configurations.
use sutil.Prelude.Text.{Bytes, codes, Lacks, split, join, text_eq}
use sutil.Prelude.Maps.{Dict, lookup}
use sutil.Mq.{ℤ, pos, negsuc, InstanceConf, KeyParts, reader, conf_string, apply_change, close}
use sutil.Mq.Keys.{Prints, HasKey}
use sutil.Prelude.{
  ℕ, zero, suc, ◌-◌, ◌≡◌, refl, Option, some, [], ◌∷◌, arith, ◌==◌, if◌then◌else◌, length,
  replicate, length-replicate,
}

-- A number in the unary notation, behind a dash where it is negative.
abbrev itoa : ℤ → Bytes
itoa (pos n) = replicate n b'1'
itoa (negsuc n) = b'-' ∷ replicate (suc n) b'1'

abbrev atoi : Bytes → Option ℤ
atoi [] = some (pos 0)
atoi (c ∷ s) = if c == b'-' then some (negsuc (length s - 1)) else some (pos (suc (length s)))

ones_Lacks : (n : ℕ) → Lacks b'-' (replicate n b'1')
ones_Lacks zero = tt
ones_Lacks (suc n) = (ground arith, ones_Lacks n)

atoi-itoa : (n : ℤ) → atoi (itoa n) ≡ some n
atoi-itoa (pos zero) = refl
atoi-itoa (pos (suc n)) = ground (arith, length-replicate {A = ℕ} n b'1')
atoi-itoa (negsuc n) = ground (arith, length-replicate {A = ℕ} n b'1')

unary_Prints : Prints itoa atoi
unary_Prints = (atoi-itoa, ones_Lacks)

abbrev conf_at : ℤ → InstanceConf
conf_at n = record {
  group = codes "g";
  role = reader;
  topic = codes "t";
  group_id = [];
  partition = n;
}

g_Lacks : Lacks b'-' (codes "g")
g_Lacks = (ground arith, tt)

t_Lacks : Lacks b'-' (codes "t")
t_Lacks = (ground arith, tt)

conf_HasKey : HasKey (conf_at (pos 3))
unfolding HasKey
conf_HasKey = (g_Lacks, t_Lacks, tt, (3, refl))

abbrev make : InstanceConf → Option ℕ
make c = some 9

abbrev one_reader : Dict ℕ
one_reader = (conf_string itoa (conf_at (pos 3)), 7) ∷ []

abbrev t_changed : KeyParts
t_changed = record { key_group = codes "g"; key_topic = codes "t" }

reader_replaced :
    lookup (conf_string itoa (conf_at (pos 3))) (apply_change make atoi (some t_changed) one_reader)
    ≡ some 9
unfolding apply_change lookup split conf_string join text_eq
reader_replaced = refl

closed : close atoi one_reader ≡ []
unfolding close split conf_string join
closed = refl
