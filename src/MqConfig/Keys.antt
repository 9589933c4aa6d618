-- ===== src/MqConfig/Keys.antt =====
-- mq/config.go: the keys of the configuration, and the changes that are handed on.
use sutil.Prelude.Text.{Bytes, Lacks, has_prefix, contains, join, text_eq_iff}
use sutil.Prelude.Dotted.{parts-join}
use sutil.Prelude.Maps.{Dict, lookup}
use sutil.MqConfig.{
  MqType, kafka, delay, type_string, build_key, parse_key, key_parts, mentions_mq, filter_changes,
  handle_change_event,
}
use sutil.Prelude.{
  true, false, ◌≡◌, refl, none, some, [], ◌∷◌, ◌++◌, arith, if◌then◌else◌, ◌∙◌, append_assoc,
}

type_string-Lacks : (kind : MqType) → Lacks b'.' (type_string kind)
unfolding type_string
type_string-Lacks kafka = ground arith
type_string-Lacks delay = ground arith

-- A configuration key, whose topic may hold dots, is read back as its topic and group, where the group
-- and the item hold none.
pub parse_key-build_key :
    (group topic item : Bytes) (kind : MqType)
    → Lacks b'.' group
    → Lacks b'.' item
    → parse_key (build_key group topic item kind)
      ≡ some (record { key_group = group; key_topic = topic })
unfolding parse_key key_parts build_key
parse_key-build_key group topic item kind g i =
    let (parts, cut, enough, name, third) =
      parts-join topic group (type_string kind) item g (type_string-Lacks kind) i in
    simp (cut, enough, third, name)

has_prefix-append : (p rest : Bytes) → has_prefix (p ++ rest) p ≡ true
unfolding has_prefix
has_prefix-append [] rest = refl
has_prefix-append (c ∷ p) rest = ground (arith, has_prefix-append p rest)

contains-append : (before sub rest : Bytes) → contains (before ++ (sub ++ rest)) sub ≡ true
unfolding contains has_prefix
contains-append [] [] [] = refl
contains-append [] [] (c ∷ rest) = refl
contains-append [] (c ∷ sub) rest = ground (arith, has_prefix-append sub rest)
contains-append (c ∷ before) sub rest = ground (arith, contains-append before sub rest)

mentions_kind :
    (before rest : Bytes) (kind : MqType)
    → mentions_mq (before ++ (type_string kind ++ rest)) ≡ true
unfolding mentions_mq
mentions_kind before rest kafka = ground (arith, contains-append before (type_string kafka) rest)
mentions_kind before rest delay = ground (arith, contains-append before (type_string delay) rest)

build_key-parts :
    (group topic item : Bytes) (kind : MqType)
    → build_key group topic item kind
      ≡ (topic ++ (b'.' ∷ (group ++ (b'.' ∷ [])))) ++ (type_string kind ++ (b'.' ∷ item))
unfolding build_key join
build_key-parts group topic item kind = simp (append_assoc)

lookup-filter_changes :
    {Change : Type 0} (k : Bytes) (changes : Dict Change)
    → lookup k (filter_changes changes) ≡ (if mentions_mq k then lookup k changes else none)
unfolding filter_changes lookup
lookup-filter_changes k [] = ground arith
lookup-filter_changes k ((j, change) ∷ changes) =
    ground (arith, text_eq_iff j k, lookup-filter_changes k changes)

-- Of an event in the namespace of the message queues the change of every configuration key is handed
-- on as it is; of another event nothing is.
pub handle_change_event-build_key :
    {Change : Type 0} (group topic item : Bytes) (kind : MqType) (changes : Dict Change)
    → ((handed : Dict Change) × (handle_change_event true changes ≡ some handed)
        × (lookup (build_key group topic item kind) handed
            ≡ lookup (build_key group topic item kind) changes))
      × (handle_change_event false changes ≡ none)
unfolding handle_change_event
handle_change_event-build_key group topic item kind changes = (
  (
    filter_changes changes,
    refl,
    lookup-filter_changes (build_key group topic item kind) changes
        ∙ rw
            (
              build_key-parts group topic item kind,
              mentions_kind (topic ++ (b'.' ∷ (group ++ (b'.' ∷ [])))) (b'.' ∷ item) kind,
            )
            refl,
  ),
  refl,
)
