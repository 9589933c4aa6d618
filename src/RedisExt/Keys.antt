-- ===== src/RedisExt/Keys.antt =====
-- cache/redisext over cache/redis: the keys that the calls to go-redis name.
use sutil.RedisExt.{Client, fix_key, RedisExt, prefix_key, Value, text, Z, ZRangeBy}
use sutil.Prelude.{
  some, List, [], ◌∷◌, map, ◌≡◌, Bool, true, false, arith, refl, ap, inl, inr, Option-cases,
}
use sutil.Prelude.Text.{Bytes}
use sutil.RedisExt.Strings.{
  string_key, counter_key, client_string, client_counter, ext_string, ext_counter, StringCall,
  CounterCall, fix_pairs, ext_mget, client_mget, ext_mset, client_mset, ext_del, client_del,
}
use sutil.RedisExt.Hashes.{
  hash_key, fields_key, client_hash, client_fields, ext_hash, ext_fields, ext_h_set_nx, FieldsCall,
  HashCall,
}
use sutil.RedisExt.SortedSets.{
  add_key, range_key, rank_key, client_add, client_range, client_rank, ext_add, ext_range, ext_rank,
  AddCall, RangeCall, RankCall,
}
use sutil.RedisExt.Lists.{
  list_key, tail_key, client_tail, ext_tail, client_list, ext_list, TailCall, ListCall,
}
use sutil.RedisExt.Calls.{
  ClientCall, ExtCall, string_call, counter_call, hash_call, fields_call, add_call, range_call,
  rank_call, list_call, tail_call, mget, mset, del, sent, sent_by, ext_call, client_call,
}

-- the strings at the even positions of MSet's pairs
unfoldable pub pairs_keys : Bool → List Value → List Bytes
pairs_keys even [] = []
pairs_keys true (text key ∷ pairs) = key ∷ pairs_keys false pairs
pairs_keys true (_ ∷ pairs) = pairs_keys false pairs
pairs_keys false (v ∷ pairs) = pairs_keys true pairs

-- the keys of a call to go-redis
unfoldable pub call_keys : ClientCall → List Bytes
unfolding string_key counter_key hash_key fields_key add_key range_key rank_key list_key tail_key
    pairs_keys
call_keys (string_call x) = string_key x ∷ []
call_keys (counter_call x) = counter_key x ∷ []
call_keys (hash_call x) = hash_key x ∷ []
call_keys (fields_call x) = fields_key x ∷ []
call_keys (add_call x) = add_key x ∷ []
call_keys (range_call x) = range_key x ∷ []
call_keys (rank_call x) = rank_key x ∷ []
call_keys (list_call x) = list_key x ∷ []
call_keys (tail_call x) = tail_key x ∷ []
call_keys (mget keys) = keys
call_keys (mset pairs) = pairs_keys true pairs
call_keys (del keys) = keys

-- the key that a client of go-redis meets for a key of a RedisExt
unfoldable pub full_key : RedisExt → Client → Bytes → Bytes
unfolding fix_key prefix_key
full_key m c key = fix_key c (prefix_key m key)

-- the keys that the caller of a method names
unfoldable pub named_keys : ExtCall → List Bytes
unfolding string_key counter_key hash_key fields_key add_key range_key rank_key list_key tail_key
    pairs_keys
named_keys (string_call x) = string_key x ∷ []
named_keys (counter_call x) = counter_key x ∷ []
named_keys (hash_call x) = hash_key x ∷ []
named_keys (fields_call x) = fields_key x ∷ []
named_keys (add_call x) = add_key x ∷ []
named_keys (range_call x) = range_key x ∷ []
named_keys (rank_call x) = rank_key x ∷ []
named_keys (list_call x) = list_key x ∷ []
named_keys (tail_call x) = tail_key x ∷ []
named_keys (mget keys) = keys
named_keys (mset pairs) = pairs_keys true pairs
named_keys (del key) = key ∷ []

string_full_key :
    (m : RedisExt) (c : Client) (x : StringCall)
    → string_key (client_string c (ext_string m x)) ≡ full_key m c (string_key x)
unfolding string_key client_string ext_string full_key
string_full_key m c x = ground arith

counter_full_key :
    (m : RedisExt) (c : Client) (x : CounterCall)
    → counter_key (client_counter c (ext_counter m x)) ≡ full_key m c (counter_key x)
unfolding counter_key client_counter ext_counter full_key
counter_full_key m c x = ground arith

hash_full_key :
    (m : RedisExt) (c : Client) (x : HashCall)
    → hash_key (client_hash c (ext_hash m x)) ≡ full_key m c (hash_key x)
unfolding hash_key client_hash ext_hash full_key ext_h_set_nx
hash_full_key m c x = ground arith

fields_full_key :
    (m : RedisExt) (c : Client) (x : FieldsCall)
    → fields_key (client_fields c (ext_fields m x)) ≡ full_key m c (fields_key x)
unfolding fields_key client_fields ext_fields full_key
fields_full_key m c x = ground arith

add_full_key :
    (m : RedisExt) (c : Client) (x : AddCall Z)
    → add_key (client_add c (ext_add m x)) ≡ full_key m c (add_key x)
unfolding add_key client_add ext_add full_key
add_full_key m c x = ground arith

range_full_key :
    (m : RedisExt) (c : Client) (x : RangeCall ZRangeBy)
    → range_key (client_range c (ext_range m x)) ≡ full_key m c (range_key x)
unfolding range_key client_range ext_range full_key
range_full_key m c x = ground arith

rank_full_key :
    (m : RedisExt) (c : Client) (x : RankCall Z)
    → rank_key (client_rank c (ext_rank m x)) ≡ full_key m c (rank_key x)
unfolding rank_key client_rank ext_rank full_key
rank_full_key m c x = ground arith

list_full_key :
    (m : RedisExt) (c : Client) (x : ListCall)
    → list_key (client_list c (ext_list m x)) ≡ full_key m c (list_key x)
unfolding list_key client_list ext_list full_key
list_full_key m c x = ground arith

tail_full_key :
    (m : RedisExt) (c : Client) (x : TailCall)
    → tail_key (client_tail c (ext_tail m x)) ≡ full_key m c (tail_key x)
unfolding tail_key client_tail ext_tail full_key
tail_full_key m c x = ground arith

pub pairs_keys-fix_pairs :
    (f : Bytes → Bytes) (even : Bool) (vs ws : List Value)
    → fix_pairs f even vs ≡ some ws
    → pairs_keys even ws ≡ map f (pairs_keys even vs)
unfolding fix_pairs pairs_keys
pairs_keys-fix_pairs f even [] ws h = ground (arith, h)
pairs_keys-fix_pairs f true (text k ∷ vs) ws h = elim (Option-cases (fix_pairs f false vs)) [
  | inl e ↦ ground (arith, e, h)
  | inr (us, e) ↦ ground (arith, pairs_keys-fix_pairs f false vs us e, e, h)
]
pairs_keys-fix_pairs f true (v ∷ vs) ws h = ground (arith, h)
pairs_keys-fix_pairs f false (v ∷ vs) ws h = elim (Option-cases (fix_pairs f true vs)) [
  | inl e ↦ ground (arith, e, h)
  | inr (us, e) ↦ ground (arith, pairs_keys-fix_pairs f true vs us e, e, h)
]

map-compose : (f g : Bytes → Bytes) (ks : List Bytes) → map g (map f ks) ≡ map (λ k. g (f k)) ks
map-compose f g [] = refl
map-compose f g (k ∷ ks) = ap (◌∷◌ (g (f k))) (map-compose f g ks)

-- The keys of the call that go-redis gets are those that the caller named, each behind the prefix
-- and the namespace, whatever the method.
pub call_keys-sent :
    (m : RedisExt) (c : Client) (x : ExtCall) (z : ClientCall)
    → sent m c x ≡ some z
    → call_keys z ≡ map (full_key m c) (named_keys x)
unfolding sent sent_by ext_call client_call call_keys named_keys full_key ext_mget client_mget
    ext_mset client_mset ext_del client_del
call_keys-sent m c (string_call x) z h = ground (arith, string_full_key m c x, h)
call_keys-sent m c (counter_call x) z h = ground (arith, counter_full_key m c x, h)
call_keys-sent m c (hash_call x) z h = ground (arith, hash_full_key m c x, h)
call_keys-sent m c (fields_call x) z h = ground (arith, fields_full_key m c x, h)
call_keys-sent m c (add_call x) z h = ground (arith, add_full_key m c x, h)
call_keys-sent m c (range_call x) z h = ground (arith, range_full_key m c x, h)
call_keys-sent m c (rank_call x) z h = ground (arith, rank_full_key m c x, h)
call_keys-sent m c (list_call x) z h = ground (arith, list_full_key m c x, h)
call_keys-sent m c (tail_call x) z h = ground (arith, tail_full_key m c x, h)
call_keys-sent m c (mget keys) z h = ground (arith, map-compose (prefix_key m) (fix_key c) keys, h)
call_keys-sent m c (mset pairs) z h = elim (Option-cases (fix_pairs (prefix_key m) true pairs)) [
  | inl e ↦ ground (arith, e, h)
  | inr (ws, e) ↦ elim (Option-cases (fix_pairs (fix_key c) true ws)) [
    | inl q ↦ ground (arith, e, q, h)
    | inr (us, q) ↦ ground (
      arith,
      e,
      q,
      h,
      pairs_keys-fix_pairs (prefix_key m) true pairs ws e,
      pairs_keys-fix_pairs (fix_key c) true ws us q,
      map-compose (prefix_key m) (fix_key c) (pairs_keys true pairs),
    )
  ]
]
call_keys-sent m c (del key) z h = ground (arith, h)
