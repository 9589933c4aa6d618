-- ===== src/RedisExt/Calls.antt =====
-- cache/redisext/redisext.go and list.go over cache/redis: one call through both layers (the scripts
-- and locks are in RedisExt.Scripts and RedisLock), and a run of calls of several
-- RedisExt values on one server. The client of go-redis with the server is a function of the
-- server's state and the call, and what it answers is passed on.
use sutil.RedisExt.{Client, RedisExt, Value, Z, RedisZ, ZRangeBy, RedisZRangeBy}
use sutil.Prelude.{Option, none, some, List, [], ◌∷◌}
use sutil.Prelude.Text.{Bytes}
use sutil.RedisExt.Strings.{
  StringCall, ext_string, client_string, CounterCall, ext_counter, client_counter, ext_mget,
  client_mget, ext_mset, client_mset, ext_del, client_del,
}
use sutil.RedisExt.Hashes.{HashCall, ext_hash, client_hash, FieldsCall, ext_fields, client_fields}
use sutil.RedisExt.SortedSets.{
  AddCall, ext_add, client_add, RangeCall, ext_range, client_range, RankCall, ext_rank, client_rank,
}
use sutil.RedisExt.Lists.{ListCall, ext_list, client_list, TailCall, ext_tail, client_tail}

-- the calls of one layer; the layers differ in the members and the ranges of sorted sets, and in
-- the keys that `Del` takes
pub data Call (Member : Type 0) (By : Type 0) (Deleted : Type 0) : Type 0 where
  string_call : StringCall → Call Member By Deleted
  counter_call : CounterCall → Call Member By Deleted
  hash_call : HashCall → Call Member By Deleted
  fields_call : FieldsCall → Call Member By Deleted
  add_call : AddCall Member → Call Member By Deleted
  range_call : RangeCall By → Call Member By Deleted
  rank_call : RankCall Member → Call Member By Deleted
  list_call : ListCall → Call Member By Deleted
  tail_call : TailCall → Call Member By Deleted
  mget : List Bytes → Call Member By Deleted
  mset : List Value → Call Member By Deleted
  del : Deleted → Call Member By Deleted

abbrev pub ExtCall : Type 0
ExtCall = Call Z ZRangeBy Bytes

abbrev pub ClientCall : Type 0
ClientCall = Call RedisZ RedisZRangeBy (List Bytes)

abbrev of_pairs : Option (List Value) → Option ClientCall
of_pairs none = none
of_pairs (some pairs) = some (mset pairs)

-- what a method of RedisExt calls of the client; none is a panic
unfoldable pub ext_call : RedisExt → ExtCall → Option ClientCall
unfolding ext_string ext_counter ext_hash ext_fields ext_add ext_range ext_rank ext_list ext_tail
    ext_mget ext_mset ext_del
ext_call m (string_call x) = some (string_call (ext_string m x))
ext_call m (counter_call x) = some (counter_call (ext_counter m x))
ext_call m (hash_call x) = some (hash_call (ext_hash m x))
ext_call m (fields_call x) = some (fields_call (ext_fields m x))
ext_call m (add_call x) = some (add_call (ext_add m x))
ext_call m (range_call x) = some (range_call (ext_range m x))
ext_call m (rank_call x) = some (rank_call (ext_rank m x))
ext_call m (list_call x) = some (list_call (ext_list m x))
ext_call m (tail_call x) = some (tail_call (ext_tail m x))
ext_call m (mget keys) = some (mget (ext_mget m keys))
ext_call m (mset pairs) = of_pairs (ext_mset m pairs)
ext_call m (del key) = some (del (ext_del m key))

-- what a method of the client calls of go-redis
unfoldable pub client_call : Client → ClientCall → Option ClientCall
unfolding client_string client_counter client_hash client_fields client_add client_range client_rank
    client_list client_tail client_mget client_mset client_del
client_call c (string_call x) = some (string_call (client_string c x))
client_call c (counter_call x) = some (counter_call (client_counter c x))
client_call c (hash_call x) = some (hash_call (client_hash c x))
client_call c (fields_call x) = some (fields_call (client_fields c x))
client_call c (add_call x) = some (add_call (client_add c x))
client_call c (range_call x) = some (range_call (client_range c x))
client_call c (rank_call x) = some (rank_call (client_rank c x))
client_call c (list_call x) = some (list_call (client_list c x))
client_call c (tail_call x) = some (tail_call (client_tail c x))
client_call c (mget keys) = some (mget (client_mget c keys))
client_call c (mset pairs) = of_pairs (client_mset c pairs)
client_call c (del keys) = some (del (client_del c keys))

-- what the call of a method becomes behind both layers
unfoldable pub sent_by : Client → Option ClientCall → Option ClientCall
unfolding client_call
sent_by c none = none
sent_by c (some y) = client_call c y

unfoldable pub sent : RedisExt → Client → ExtCall → Option ClientCall
unfolding sent_by ext_call
sent m c x = sent_by c (ext_call m x)

-- what a method gives its caller: what go-redis answers, the error of `getRedisInstance`, or a
-- panic
pub data Result (Reply : Type 0) : Type 0 where
  answered : Reply → Result Reply
  no_instance : Result Reply
  panicked : Result Reply

module _ {Server Reply : Type 0} (serve : Server → ClientCall → Server × Reply) where
  unfoldable pub serve_sent : Option ClientCall → Server → Server × Result Reply
  serve_sent none s = (s, panicked)
  serve_sent (some z) s = let (after, reply) = serve s z in (after, answered reply)

  -- one method of RedisExt, where `getRedisInstance` gives the client or an error
  unfoldable pub perform : RedisExt → Option Client → ExtCall → Server → Server × Result Reply
  unfolding serve_sent sent
  perform m none x s = (s, no_instance)
  perform m (some c) x s = serve_sent (sent m c x) s

  -- calls of several values in turn, each with the client that it has then
  unfoldable pub run : List (RedisExt × Option Client × ExtCall) → Server → Server
  unfolding perform
  run [] s = s
  run ((m, c, x) ∷ calls) s = let (after, _) = perform m c x s in run calls after
