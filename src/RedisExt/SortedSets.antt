-- ===== src/RedisExt/SortedSets.antt =====
-- cache/redisext/redisext.go and cache/redis/redis.go: sorted sets. A type of members, or of
-- ranges, differs between RedisExt and go-redis.
use sutil.RedisExt.{
  Client, fix_key, RedisExt, prefix_key, to_redis_z_slice, RedisZ, ℤ, to_redis_z_range_by,
  RedisZRangeBy, Value, to_redis_z, Z, ZRangeBy, Float64,
}
use sutil.Prelude.Text.{Bytes, codes}
use sutil.Prelude.{List}
use sutil.Mq.{ℤ}

pub data AddCall (Member : Type 0) : Type 0 where
  z_add : Bytes → List Member → AddCall Member
  z_add_nx : Bytes → List Member → AddCall Member
  z_add_nx_ch : Bytes → List Member → AddCall Member
  z_add_xx : Bytes → List Member → AddCall Member
  z_add_xx_ch : Bytes → List Member → AddCall Member
  z_add_ch : Bytes → List Member → AddCall Member
  z_card : Bytes → AddCall Member
  z_count : Bytes → Bytes → Bytes → AddCall Member

unfoldable pub ext_add : RedisExt → AddCall Z → AddCall RedisZ
unfolding prefix_key to_redis_z_slice
ext_add m (z_add key members) = z_add (prefix_key m key) (to_redis_z_slice members)
ext_add m (z_add_nx key members) = z_add_nx (prefix_key m key) (to_redis_z_slice members)
ext_add m (z_add_nx_ch key members) = z_add_nx_ch (prefix_key m key) (to_redis_z_slice members)
ext_add m (z_add_xx key members) = z_add_xx (prefix_key m key) (to_redis_z_slice members)
ext_add m (z_add_xx_ch key members) = z_add_xx_ch (prefix_key m key) (to_redis_z_slice members)
ext_add m (z_add_ch key members) = z_add_ch (prefix_key m key) (to_redis_z_slice members)
ext_add m (z_card key) = z_card (prefix_key m key)
ext_add m (z_count key low high) = z_count (prefix_key m key) low high

unfoldable pub client_add : Client → AddCall RedisZ → AddCall RedisZ
unfolding fix_key
client_add c (z_add key members) = z_add (fix_key c key) members
client_add c (z_add_nx key members) = z_add_nx (fix_key c key) members
client_add c (z_add_nx_ch key members) = z_add_nx_ch (fix_key c key) members
client_add c (z_add_xx key members) = z_add_xx (fix_key c key) members
client_add c (z_add_xx_ch key members) = z_add_xx_ch (fix_key c key) members
client_add c (z_add_ch key members) = z_add_ch (fix_key c key) members
client_add c (z_card key) = z_card (fix_key c key)
client_add c (z_count key low high) = z_count (fix_key c key) low high

-- the key that a call names
unfoldable pub add_key : {Member : Type 0} → AddCall Member → Bytes
add_key (z_add key _) = key
add_key (z_add_nx key _) = key
add_key (z_add_nx_ch key _) = key
add_key (z_add_xx key _) = key
add_key (z_add_xx_ch key _) = key
add_key (z_add_ch key _) = key
add_key (z_card key) = key
add_key (z_count key _ _) = key

-- the method that is called
unfoldable pub add_method : {Member : Type 0} → AddCall Member → Bytes
add_method (z_add _ _) = codes "ZAdd"
add_method (z_add_nx _ _) = codes "ZAddNX"
add_method (z_add_nx_ch _ _) = codes "ZAddNXCh"
add_method (z_add_xx _ _) = codes "ZAddXX"
add_method (z_add_xx_ch _ _) = codes "ZAddXXCh"
add_method (z_add_ch _ _) = codes "ZAddCh"
add_method (z_card _) = codes "ZCard"
add_method (z_count _ _ _) = codes "ZCount"

pub data RangeCall (By : Type 0) : Type 0 where
  z_range : Bytes → ℤ → ℤ → RangeCall By
  z_range_by_lex : Bytes → By → RangeCall By
  z_range_by_score : Bytes → By → RangeCall By
  z_range_with_scores : Bytes → ℤ → ℤ → RangeCall By
  z_rev_range : Bytes → ℤ → ℤ → RangeCall By
  z_rev_range_with_scores : Bytes → ℤ → ℤ → RangeCall By

unfoldable pub ext_range : RedisExt → RangeCall ZRangeBy → RangeCall RedisZRangeBy
unfolding prefix_key to_redis_z_range_by
ext_range m (z_range key start stop) = z_range (prefix_key m key) start stop
ext_range m (z_range_by_lex key by) = z_range_by_lex (prefix_key m key) (to_redis_z_range_by by)
ext_range m (z_range_by_score key by) = z_range_by_score (prefix_key m key) (to_redis_z_range_by by)
ext_range m (z_range_with_scores key start stop) = z_range_with_scores (prefix_key m key) start stop
ext_range m (z_rev_range key start stop) = z_rev_range (prefix_key m key) start stop
ext_range m (z_rev_range_with_scores key start stop) =
    z_rev_range_with_scores (prefix_key m key) start stop

unfoldable pub client_range : Client → RangeCall RedisZRangeBy → RangeCall RedisZRangeBy
unfolding fix_key
client_range c (z_range key start stop) = z_range (fix_key c key) start stop
client_range c (z_range_by_lex key by) = z_range_by_lex (fix_key c key) by
client_range c (z_range_by_score key by) = z_range_by_score (fix_key c key) by
client_range c (z_range_with_scores key start stop) = z_range_with_scores (fix_key c key) start stop
client_range c (z_rev_range key start stop) = z_rev_range (fix_key c key) start stop
client_range c (z_rev_range_with_scores key start stop) =
    z_rev_range_with_scores (fix_key c key) start stop

-- the key that a call names
unfoldable pub range_key : {By : Type 0} → RangeCall By → Bytes
range_key (z_range key _ _) = key
range_key (z_range_by_lex key _) = key
range_key (z_range_by_score key _) = key
range_key (z_range_with_scores key _ _) = key
range_key (z_rev_range key _ _) = key
range_key (z_rev_range_with_scores key _ _) = key

-- the method that is called
unfoldable pub range_method : {By : Type 0} → RangeCall By → Bytes
range_method (z_range _ _ _) = codes "ZRange"
range_method (z_range_by_lex _ _) = codes "ZRangeByLex"
range_method (z_range_by_score _ _) = codes "ZRangeByScore"
range_method (z_range_with_scores _ _ _) = codes "ZRangeWithScores"
range_method (z_rev_range _ _ _) = codes "ZRevRange"
range_method (z_rev_range_with_scores _ _ _) = codes "ZRevRangeWithScores"

pub data RankCall (Member : Type 0) : Type 0 where
  z_rank : Bytes → Bytes → RankCall Member
  z_rev_rank : Bytes → Bytes → RankCall Member
  z_rem : Bytes → List Value → RankCall Member
  z_incr : Bytes → Member → RankCall Member
  z_incr_nx : Bytes → Member → RankCall Member
  z_incr_xx : Bytes → Member → RankCall Member
  z_incr_by : Bytes → Float64 → Bytes → RankCall Member
  z_score : Bytes → Bytes → RankCall Member

unfoldable pub ext_rank : RedisExt → RankCall Z → RankCall RedisZ
unfolding prefix_key to_redis_z
ext_rank m (z_rank key who) = z_rank (prefix_key m key) who
ext_rank m (z_rev_rank key who) = z_rev_rank (prefix_key m key) who
ext_rank m (z_rem key members) = z_rem (prefix_key m key) members
ext_rank m (z_incr key who) = z_incr (prefix_key m key) (to_redis_z who)
ext_rank m (z_incr_nx key who) = z_incr_nx (prefix_key m key) (to_redis_z who)
ext_rank m (z_incr_xx key who) = z_incr_xx (prefix_key m key) (to_redis_z who)
ext_rank m (z_incr_by key increment who) = z_incr_by (prefix_key m key) increment who
ext_rank m (z_score key who) = z_score (prefix_key m key) who

unfoldable pub client_rank : Client → RankCall RedisZ → RankCall RedisZ
unfolding fix_key
client_rank c (z_rank key who) = z_rank (fix_key c key) who
client_rank c (z_rev_rank key who) = z_rev_rank (fix_key c key) who
client_rank c (z_rem key members) = z_rem (fix_key c key) members
client_rank c (z_incr key who) = z_incr (fix_key c key) who
client_rank c (z_incr_nx key who) = z_incr_nx (fix_key c key) who
client_rank c (z_incr_xx key who) = z_incr_xx (fix_key c key) who
client_rank c (z_incr_by key increment who) = z_incr_by (fix_key c key) increment who
client_rank c (z_score key who) = z_score (fix_key c key) who

-- the key that a call names
unfoldable pub rank_key : {Member : Type 0} → RankCall Member → Bytes
rank_key (z_rank key _) = key
rank_key (z_rev_rank key _) = key
rank_key (z_rem key _) = key
rank_key (z_incr key _) = key
rank_key (z_incr_nx key _) = key
rank_key (z_incr_xx key _) = key
rank_key (z_incr_by key _ _) = key
rank_key (z_score key _) = key

-- the method that is called
unfoldable pub rank_method : {Member : Type 0} → RankCall Member → Bytes
rank_method (z_rank _ _) = codes "ZRank"
rank_method (z_rev_rank _ _) = codes "ZRevRank"
rank_method (z_rem _ _) = codes "ZRem"
rank_method (z_incr _ _) = codes "ZIncr"
rank_method (z_incr_nx _ _) = codes "ZIncrNX"
rank_method (z_incr_xx _ _) = codes "ZIncrXX"
rank_method (z_incr_by _ _ _) = codes "ZIncrBy"
rank_method (z_score _ _) = codes "ZScore"
