-- ===== src/RedisExt/Methods.antt =====
-- cache/redisext over cache/redis: which method of go-redis the methods of RedisExt reach.
use sutil.RedisExt.{Client, fix_key, RedisExt, prefix_key, Z, ZRangeBy}
use sutil.Prelude.{some, ◌≡◌, inl, inr, true, arith, if◌then◌else◌, Option-cases}
use sutil.Prelude.Text.{Bytes, codes, text_eq}
use sutil.RedisExt.Strings.{
  string_method, counter_method, client_string, client_counter, ext_string, ext_counter, StringCall,
  CounterCall, ext_mset, client_mset, fix_pairs,
}
use sutil.RedisExt.Hashes.{
  hash_method, fields_method, client_hash, client_fields, ext_hash, ext_fields, ext_h_set_nx,
  FieldsCall, HashCall,
}
use sutil.RedisExt.SortedSets.{
  add_method, range_method, rank_method, client_add, client_range, client_rank, ext_add, ext_range,
  ext_rank, AddCall, RangeCall, RankCall,
}
use sutil.RedisExt.Lists.{
  list_method, tail_method, client_list, client_tail, ext_list, ext_tail, ListCall, TailCall,
}
use sutil.RedisExt.Calls.{
  sent, Call, sent_by, string_call, ext_call, counter_call, client_call, hash_call, fields_call,
  add_call, ExtCall, range_call, ClientCall, rank_call, list_call, tail_call, mget, mset, del,
}

unfoldable pub call_method : {Member By Deleted : Type 0} → Call Member By Deleted → Bytes
unfolding string_method counter_method hash_method fields_method add_method range_method rank_method
    list_method tail_method
call_method (string_call x) = string_method x
call_method (counter_call x) = counter_method x
call_method (hash_call x) = hash_method x
call_method (fields_call x) = fields_method x
call_method (add_call x) = add_method x
call_method (range_call x) = range_method x
call_method (rank_call x) = rank_method x
call_method (list_call x) = list_method x
call_method (tail_call x) = tail_method x
call_method (mget _) = codes "MGet"
call_method (mset _) = codes "MSet"
call_method (del _) = codes "Del"

-- `HSetNX` calls `HSet`
unfoldable pub reached : Bytes → Bytes
reached name = if text_eq name (codes "HSetNX") then codes "HSet" else name

string_reached :
    (m : RedisExt) (c : Client) (x : StringCall)
    → string_method (client_string c (ext_string m x)) ≡ reached (string_method x)
unfolding string_method client_string ext_string reached text_eq
string_reached m c x = ground arith

counter_reached :
    (m : RedisExt) (c : Client) (x : CounterCall)
    → counter_method (client_counter c (ext_counter m x)) ≡ reached (counter_method x)
unfolding counter_method client_counter ext_counter reached text_eq
counter_reached m c x = ground arith

hash_reached :
    (m : RedisExt) (c : Client) (x : HashCall)
    → hash_method (client_hash c (ext_hash m x)) ≡ reached (hash_method x)
unfolding hash_method client_hash ext_hash reached text_eq ext_h_set_nx
hash_reached m c x = ground arith

fields_reached :
    (m : RedisExt) (c : Client) (x : FieldsCall)
    → fields_method (client_fields c (ext_fields m x)) ≡ reached (fields_method x)
unfolding fields_method client_fields ext_fields reached text_eq
fields_reached m c x = ground arith

add_reached :
    (m : RedisExt) (c : Client) (x : AddCall Z)
    → add_method (client_add c (ext_add m x)) ≡ reached (add_method x)
unfolding add_method client_add ext_add reached text_eq
add_reached m c x = ground arith

range_reached :
    (m : RedisExt) (c : Client) (x : RangeCall ZRangeBy)
    → range_method (client_range c (ext_range m x)) ≡ reached (range_method x)
unfolding range_method client_range ext_range reached text_eq
range_reached m c x = ground arith

rank_reached :
    (m : RedisExt) (c : Client) (x : RankCall Z)
    → rank_method (client_rank c (ext_rank m x)) ≡ reached (rank_method x)
unfolding rank_method client_rank ext_rank reached text_eq
rank_reached m c x = ground arith

list_reached :
    (m : RedisExt) (c : Client) (x : ListCall)
    → list_method (client_list c (ext_list m x)) ≡ reached (list_method x)
unfolding list_method client_list ext_list reached text_eq
list_reached m c x = ground arith

tail_reached :
    (m : RedisExt) (c : Client) (x : TailCall)
    → tail_method (client_tail c (ext_tail m x)) ≡ reached (tail_method x)
unfolding tail_method client_tail ext_tail reached text_eq
tail_reached m c x = ground arith

-- Each method of redisext.go and list.go (not those of the scripts and the locks) reaches the method
-- of go-redis that has its own name, but `HSetNX`, which reaches `HSet`; this holds where it does not
-- panic.
pub call_method-sent :
    (m : RedisExt) (c : Client) (x : ExtCall) (z : ClientCall)
    → sent m c x ≡ some z
    → call_method z ≡ reached (call_method x)
unfolding sent sent_by ext_call client_call call_method ext_mset client_mset
call_method-sent m c (string_call x) z h = ground (arith, string_reached m c x, h)
call_method-sent m c (counter_call x) z h = ground (arith, counter_reached m c x, h)
call_method-sent m c (hash_call x) z h = ground (arith, hash_reached m c x, h)
call_method-sent m c (fields_call x) z h = ground (arith, fields_reached m c x, h)
call_method-sent m c (add_call x) z h = ground (arith, add_reached m c x, h)
call_method-sent m c (range_call x) z h = ground (arith, range_reached m c x, h)
call_method-sent m c (rank_call x) z h = ground (arith, rank_reached m c x, h)
call_method-sent m c (list_call x) z h = ground (arith, list_reached m c x, h)
call_method-sent m c (tail_call x) z h = ground (arith, tail_reached m c x, h)
call_method-sent m c (mget keys) z h = unfold reached text_eq in ground (arith, h)
call_method-sent m c (mset pairs) z h =
    unfold reached text_eq in
    elim (Option-cases (fix_pairs (prefix_key m) true pairs)) [
      | inl e ↦ ground (arith, e, h)
      | inr (ws, e) ↦ elim (Option-cases (fix_pairs (fix_key c) true ws)) [
        | inl q ↦ ground (arith, e, q, h)
        | inr (us, q) ↦ ground (arith, e, q, h)
      ]
    ]
call_method-sent m c (del key) z h = unfold reached text_eq in ground (arith, h)
