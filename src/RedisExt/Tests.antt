-- ===== src/RedisExt/Tests.antt =====
-- Concrete runs of the calls of cache/redisext.
use sutil.Prelude.{Option, none, some, List, [], ◌∷◌, ◌≡◌, refl, ◌≢◌, true, map, arith}
use sutil.Prelude.Text.{Bytes, codes, join}
use sutil.Prelude.Maps.{Dict, lookup, store}
use sutil.RedisExt.{
  RedisExt, Client, ℤ, new_client, get_instance_conf, text, fix_key, prefix_key, nil_value,
}
use sutil.RedisExt.Sharing.{Plain, full_key-injective, own_client}
use sutil.RedisExt.Keys.{full_key}
use sutil.RedisExt.Calls.{
  ClientCall, string_call, ExtCall, hash_call, del, sent, sent_by, ext_call, client_call,
}
use sutil.RedisExt.Scripts.{Script, eval_sha_then_eval, script_keys, eval_sha_then_eval_lem}
use sutil.Mq.{ℤ, pos}
use sutil.RedisExt.Strings.{set}
use sutil.RedisExt.Methods.{call_method, reached, call_method-sent}
use sutil.RedisExt.Hashes.{h_set, h_set_nx, ext_hash, ext_h_set_nx, client_hash}

abbrev orders : RedisExt
orders = record { namespace = codes "base/order"; prefix = codes "o" }

abbrev users : RedisExt
users = record { namespace = codes "base/order"; prefix = codes "u" }

orders-Plain : Plain orders
orders-Plain = ground arith

full_key_run :
    full_key orders (own_client orders (codes "default") true) (codes "7")
    ≡ codes "base/order.e.o.7"
unfolding full_key own_client new_client get_instance_conf fix_key prefix_key join
full_key_run = refl

full_key-injective_example :
    (orders.namespace ≡ orders.namespace)
    × (orders.prefix ≡ orders.prefix)
    × (codes "7" ≡ codes "7")
full_key-injective_example =
    full_key-injective orders orders (codes "a") (codes "a") true (codes "7") (codes "7")
      orders-Plain orders-Plain refl

-- a server that keeps the texts that `Set` sends
abbrev keeps : Dict Bytes → ClientCall → Dict Bytes
keeps s (string_call (set key (text v) exp)) = store key v s
keeps s _ = s

abbrev serves : Dict Bytes → ClientCall → Dict Bytes × Unit {0}
serves s z = (keeps s z, tt)

abbrev view_of : Bytes → Dict Bytes → Option Bytes
view_of k s = lookup k s

abbrev users_client : Client
users_client = own_client users (codes "default") true

abbrev foreign_calls : List (RedisExt × Option Client × ExtCall)
foreign_calls =
    (users, some users_client, string_call (set (codes "7") (text (codes "Ann")) (pos 0)))
    ∷ (users, none, del (codes "7"))
    ∷ []

abbrev not_there : ExtCall
not_there = hash_call (h_set_nx (codes "7") (codes "f") nil_value)

abbrev overwriting : ClientCall
overwriting = hash_call (h_set (codes "base/order.e.u.7") (codes "f") nil_value)

overwrites : sent users users_client not_there ≡ some overwriting
unfolding sent sent_by ext_call client_call ext_hash ext_h_set_nx client_hash prefix_key fix_key
    join own_client new_client get_instance_conf
overwrites = refl

call_method-sent_example : call_method overwriting ≡ reached (call_method not_there)
call_method-sent_example = call_method-sent users users_client not_there overwriting overwrites

abbrev counting : Script
counting = record { src = codes "return 1"; hash = codes "e0e1" }

eval_sha_then_eval_lem_example :
    let (first, second) =
      eval_sha_then_eval users (some users_client) counting (codes "7" ∷ []) [] in
    (script_keys first ≡ map (full_key users users_client) (codes "7" ∷ []))
    × (script_keys second ≡ map (full_key users users_client) (script_keys first))
    × (script_keys second ≢ script_keys first)
eval_sha_then_eval_lem_example =
    eval_sha_then_eval_lem users users_client counting (codes "7") [] []
