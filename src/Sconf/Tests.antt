-- ===== src/Sconf/Tests.antt =====
-- The tiered configuration at concrete inputs.
use sutil.Sconf.Refs.{find_all, trim, scan}
use sutil.Sconf.Load.{IsConf}
use sutil.Sconf.Termination.{to_string-ne-stuck}
use sutil.Mq.{pos, negsuc}
use sutil.Sconf.Getters.{to_slice_int, got}
use sutil.Sconf.{
  Conf, ok, err, stuck, find, in_history, one_ref, parse_refs, parse_var, expand, size, to_string,
  cyclic,
}
use sutil.Prelude.{◌≡◌, refl, ◌≢◌, [], ◌∷◌}
use sutil.Prelude.Text.{codes, text_eq, has_prefix, contains, index, split}
use sutil.Prelude.Maps.{lookup}

abbrev conf : Conf
conf =
    (codes "db", (codes "host", codes "h1") ∷ (codes "url", codes "x${ db.host }y${db.none}$") ∷ [])
    ∷ (codes "loop", (codes "a", codes "${loop.b}") ∷ (codes "b", codes "-${loop.a}-") ∷ [])
    ∷ []

looped : to_string conf (codes "loop") (codes "a") ≡ err (cyclic (codes "loop.b"))
unfolding to_string size expand find lookup parse_var find_all scan parse_refs one_ref trim
    in_history index contains has_prefix text_eq
looped = refl

to_string-ne-stuck_example : to_string conf (codes "loop") (codes "a") ≢ stuck
to_string-ne-stuck_example = to_string-ne-stuck conf (codes "loop") (codes "a")

stored : find conf (codes "db") (codes "url") ≡ ok (codes "x${ db.host }y${db.none}$")
unfolding find lookup text_eq
stored = refl

abbrev override : Conf
override = (codes "db", (codes "host", codes "h2") ∷ []) ∷ []

override-IsConf : IsConf override
unfolding lookup
override-IsConf = ((refl, tt), ((refl, tt), tt))

abbrev ports : Conf
ports = (codes "web", (codes "ports", codes "80, -1 ,443") ∷ []) ∷ []

three_ports :
    to_slice_int ports (codes "web") (codes "ports") b',' ≡ got (pos 80 ∷ negsuc 0 ∷ pos 443 ∷ [])
unfolding to_slice_int to_string size expand find lookup parse_var find_all scan parse_refs one_ref
    trim in_history index contains has_prefix text_eq split
three_ports = refl
