-- ===== src/Lib.antt =====
-- Verification of sutil, a library of utilities for Go services.
--
-- Its parts are mostly independent packages. Each module below models one of them, and a caller is
-- modelled with what it calls (PackageSplit with UnPackdata, the dbrouter's manager with the changes
-- that its parser computes).
--
--   Framing     snetutil/snetutil.go: frames with a length prefix (PackdataPad, Packdata, UnPackdata)
--               and the loop that reads them from a connection (PackageSplit). The connection is the
--               list of what its reads answer; the callback is the list of the calls made to it.
--               Framing.Uvarint is written from the documentation of encoding/binary.
--   Slowid      slowid/slowid.go: the generator of ids (Slowid, Next, tilNextMillis, NewSlowid). The
--               clock is the list of its readings.
--   Sconf       sconf/TierConf.go: sections and properties (LoadFromConf), the expansion of references
--               in a value (ToString, toString, parseVar), and the typed getters (Sconf.Getters).
--   RedisLock   cache/redisext/lock.go: Lock, LockWithTimeout and TryAcquire. What redis answers is an
--               input, and the commands sent are part of the result.
--   Scrypto     scrypto/padding.go, ecb.go, aes.go: PKCS5 padding, the ECB mode and the cryptor.
--   Dbrouter    dbrouter/parser.go (Dbrouter.Parser, and Dbrouter.Changes for compareParsers),
--               dbrouter/express.go (Dbrouter.Express), dbrouter/instance.go (Dbrouter.Manager) and
--               dbrouter/dbrouter.go (Dbrouter.Router): the routing of tables to instances, the instances
--               kept for them, and the calls that go through both, the breakers and the counts.
--   RedisExt    cache/redisext/redisext.go, list.go and script.go over cache/redis/redis.go: each method
--               as the call that it makes of go-redis, by families (RedisExt.Strings, Hashes, SortedSets,
--               Lists), put together in RedisExt.Calls; the scripts in RedisExt.Scripts.
--   HttpReq     snetutil/httpreq.go: the arguments of a request, its body, and the responses.
--   Mq          mq/instance.go: the instances of a message queue client under their printed
--               configuration.
--   Redispool   redispool/redispool.go: the pool of connections of each redis address, and the command
--               that is tried again on EOF (CmdSingle), also for scripts (EvalSingle). What dialling and
--               redis answer is an input.
--   RedisCache  cache/redis/instance.go and config.go: the keys of the redis clients and of their
--               configuration, the clients kept under the former (RedisCache.Manager), and the
--               configuration of a namespace (RedisCache.Config).
--   Breaker     dbrouter/breaker.go: the counter of errors of a table and the tickers that decide on it.
--   Ssync       ssync/ssync.go: the mutex that can be tried.
--   Stime       stime/backoff.go: the waiting times of a back-off.
--   Paconn      paconn/agent.go and manager.go, with the message of paconn/pb/connproto.proto: agents
--               that call each other over frames. A run is the list of the steps that the goroutines of
--               an agent make, in any order that its locks allow (Paconn.Run); Paconn.Exchange puts two
--               agents and Framing together.
--   CacheValue  cache/value/value.go: the cache that loads what redis does not have.
--   CacheData   cache/cache.go: the older cache, whose data load themselves.
--   MqConfig    mq/config.go: the configuration of a topic with the fallback to the default group, its
--               keys, and the observer of changes; MqConfig.Watch and MqConfig.Events put it together with
--               Mq.
--   MqDelay     mq/delay.go: the client of the delay queue.
--   MqClient    mq/reader.go, writer.go, kafka.go, trace.go and interface.go: the instances that Mq keeps
--               (newInstance), the payload of a message, and the calls that write and read messages, over
--               Kafka (MqClient.Messages) and over MqDelay (MqClient.Delayed). What the libraries give a
--               read is an input, and so is the carrier of the span that a write starts; what the
--               libraries are called with is the result.
--   Download    snetutil/snetutil.go, HttpRangeDownload: a file fetched range by range.
--   Version     sutil.go: the comparison of versions, and the choice of an address by a hash.
--   Stext       stext/loctext.go: a format with parameters in turn or by number.
--   Stat        stat/stat.go: the counts of queries and the reports of them.
--   NetAddr     snetutil/snetutil.go: inside addresses and the address of an HTTP client.
--   Prelude     lists, byte strings, bits and maps, which the other modules share.
--
-- Numbers are natural numbers with the wrap-around of the source's width written out. Strings and byte
-- slices are lists of byte values. A Go map is a list of pairs; its order stands for the order in which
-- Go visits the map, which the theorems leave open. Errors are values: a constructor, or none where the
-- source only logs them. A slice out of range is a panic of its own in Framing and Scrypto.
--
-- Fuel: UnPackdata has one round more than the input has bytes, since a round that goes on takes a byte.
-- ToString has two levels more than there are properties, since the history of references has no name
-- twice. CryptBlocks has one round for each byte. The loops of PackageSplit, tilNextMillis and
-- LockWithTimeout run over the list of what their environment answers.
--
-- Parameters: the block cipher and the CBC mode of the standard library (CBC as one call on a fresh
-- cryptor), json.Unmarshal, regexp.CompilePOSIX, strconv.Atoi and the verb %d, net.ParseIP, the
-- encoding by protobuf, encoding/json (as functions of the texts and of the value that is there),
-- SHA-1, gzip, the go-redis and Kafka clients with their servers, the configuration center, the
-- HTTP server and the constructors of database and queue instances. Each has its documented
-- behaviour as a hypothesis where one is needed.
--
-- Not modelled: logging, tracing, metrics and mail, which only write; the wrappers of etcd and
-- apollo; generated code; the goroutines that close an instance behind the manager's back; the
-- getters of floats of TierConf and its Unmarshal by reflection; the packages trace and scontext,
-- and the symbols of stext; and the forms and files of a request in snetutil/httpreq.go.
pub mod Prelude
pub mod Framing
pub mod Slowid
pub mod Sconf
pub mod RedisLock
pub mod Scrypto
pub mod Dbrouter
pub mod Mq
pub mod Redispool
pub mod RedisCache
pub mod Breaker
pub mod Ssync
pub mod Stime
pub mod Paconn
pub mod CacheValue
pub mod MqConfig
pub mod MqDelay
pub mod Download
pub mod Version
pub mod NetAddr
pub mod Stat
pub mod RedisExt
pub mod MqClient
pub mod HttpReq
pub mod Stext
pub mod CacheData
