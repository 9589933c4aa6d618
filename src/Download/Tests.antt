-- ===== src/Download/Tests.antt =====
-- A download of seven bytes in ranges of three.
use sutil.Prelude.Text.{Bytes, codes}
use sutil.Download.{Range, whole, between, onwards, Fetch, copied, broken, http_range_download}
use sutil.Download.Ranges.{slice, Satisfiable, http_range_download-content}
use sutil.Prelude.{◌≡◌, refl, none, some, [], length, zero, suc, ltb, lt→ltb, if◌then◌else◌}

abbrev seven : Bytes
seven = codes "abcdefg"

-- a server of the content that breaks off on what lies outside it
abbrev honest : Range → Fetch
unfolding slice
honest whole = copied seven
honest (between lo hi) =
    if ltb hi (length seven) then copied (slice (between lo hi) seven) else broken []
honest (onwards lo) = if ltb lo (length seven) then copied (slice (onwards lo) seven) else broken []

honest_serves : (r : Range) → Satisfiable r seven → honest r ≡ copied (slice r seven)
unfolding slice
honest_serves whole h = refl
honest_serves (between lo hi) (h, k) = rw (lt→ltb hi (length seven) k) refl
honest_serves (onwards lo) h = rw (lt→ltb lo (length seven) h) refl

http_range_download-content_example :
    http_range_download honest 3 (length seven) ≡ (some (length seven), seven)
unfolding slice
http_range_download-content_example = http_range_download-content honest 3 seven honest_serves

abbrev six : Bytes
six = codes "abcdef"

doubled : http_range_download (λ r. copied six) 3 6 ≡ (some 12, codes "abcdefabcdef")
unfolding http_range_download
doubled = refl

-- the first range arrives, and the second breaks off
abbrev breaking : Range → Fetch
breaking whole = broken []
breaking (between lo hi) = elim lo [ zero ↦ copied (codes "abc") | suc n ↦ broken (codes "d") ]
breaking (onwards lo) = broken []

breaks_off : http_range_download breaking 3 7 ≡ (none, codes "abcd")
unfolding http_range_download
breaks_off = refl
