-- ===== src/Lib.antt =====
-- Verification of zhiguang_go, the backend of a knowledge community: a Go service over MySQL, Redis,
-- Kafka and Elasticsearch. The development covers the parts whose correctness rests on their own logic:
-- counting likes and follows, registration and login with their codes and tokens, the home timeline, the
-- rate limiter, the distributed lock and the caches.
--
-- The parts and how they interact:
--
-- * Counter (internal/counter). A like toggles a bit of a chunked bitmap and a member of a sorted set in
--   one Lua script (Counter/Toggle, of bitmap_lua.go and bitmap_toggle.go) and publishes an event; where
--   that fails, the entity is marked dirty and the event recorded (Counter/Publish, of failure.go). The
--   consumer (Counter/Batch and Counter/Flush, of consumer.go) collects the events of a partition into
--   batches of consecutive offsets and flushes each with a script that counts under a watermark of the
--   partition (Counter/Watermark, of consumer_watermark.go), so that a batch that Kafka delivers again is
--   counted once; Counter/Loop is the loop that hands the batches over. Counter/Model is model.go, with the
--   key formats. Counter/UserCounter is user_counter.go, with the script that counts a follow once.
--   Counter/Likers holds the cursors of likers.go, and Counter/Likers/Scan its scan of the bitmap for users. Counter/Backoff is
--   repair_backoff.go and repair_rate_limit.go, which say when an entity may be rebuilt; Counter/Rebuild is
--   sds_rebuild.go with the counts of sds_read.go, and Counter/Repair the repair of dirty members in
--   consumer.go.
-- * Relation (internal/relation). Relation/EventProcessor is event_processor.go: follow events move
--   members between sorted sets and count through Counter.UserCounter. Relation/Follows is follow.go with
--   the token bucket of service.go and the writes of repository.go: it stores the relation and the event
--   in one transaction.
-- * Auth (internal/auth). Auth/Verification is verification.go and verification_lua.go: SendCode and
--   Verify with the limits on sending and on attempts. Auth/Tokens is token_store.go with Refresh and
--   Logout of service.go: the whitelist of refresh tokens. Auth/Reset is ResetPassword of service.go,
--   Auth/Identifiers the checks of phones and emails there, and Auth/Login its SendCode, Register and Login,
--   with the steps that both share in Auth/Signing and the tables (repository.go, db/schema.sql) in
--   Auth/Accounts: a registration and a login check a code of Auth/Verification or a hash, and store a token
--   in the whitelist of Auth/Tokens.
-- * Fanout (internal/fanout). Fanout/Timeline is timeline_reader.go: the home timeline merges the inbox
--   of a reader with the boxes of followed celebrities and pages through it with a cursor.
--   Fanout/Boxes is what ZADD and the trim do to a box, and Fanout/Writing is celebrity.go,
--   fanout_service.go and relation_hooks.go, with config.go in Fanout/Config and consumer.go in
--   Fanout/Writing/Rows: a post is put into its author's box and, page after page, into the inboxes of the
--   followers, until the author turns out to be a celebrity. The loop runs on the threshold as fuel, since
--   each round reaches at least one follower and the threshold ends it.
-- * Pkg (pkg). Pkg/RedisLock is redislock/lock.go: acquiring, renewing and releasing a lock by token.
--   Pkg/RateLimiter is middleware/ratelimit.go: a sliding window of requests and a ban.
-- * Cache (internal/cache). Cache/Tiered is tiered.go with CacheReadThrough of pkg/cacheutil: a key is read
--   through the process cache, Redis and, under a lock, the loader, which fills both. Cache/HotKeys is
--   hotkey.go: accesses are counted in buckets of time, and the sum over a window extends the lifetime of
--   the cached entry. Cache/Bloom is bloom.go, the client of a filter of the posts that exist, with the
--   warm-up of internal/knowpost/detail_service.go.
-- * Base holds the Boolean tests, lists, byte strings, the integers over the native numbers and decimal
--   text (strconv) that the parts share.
--
-- How the code is modelled. A Redis keyspace is a record of functions from keys to values; a key with an
-- expiry is kept with the time at which it expires, and is read as missing from then on. A Lua script is
-- one function, since Redis runs it as a whole; a script that stops with an error keeps its earlier
-- writes. Calls that can fail have their failures as inputs. A Go string is a list of bytes. int64 and
-- uint64 values that the code formats are natural numbers or integers with their range in a
-- hypothesis; the shift of escalateBackoff is computed modulo 2^64. The counts that HINCRBY keeps
-- are integers without bound: that Redis refuses to take one past int64 is not modelled. Loops over slices are structural
-- recursion; the retries of a flush and of the lock run over the list of rounds or attempts that they
-- make. JSON decoding, the random source, the reply conversion of the Redis client, the
-- encoding of cached values, the pages of followers, the commands of the filter's module, the collation of
-- the users table and bcrypt's comparison are parameters.
--
-- Not modelled: HTTP handlers, most MySQL repositories, the signing of tokens, Elasticsearch, the LLM
-- client, start-up and configuration, which are glue over other systems; the feeds of internal/knowpost,
-- the cached lists of internal/relation and the versions of the cache package, which have logic of their own that is not
-- covered yet.
pub mod Auth
pub mod Base
pub mod Cache
pub mod Counter
pub mod Fanout
pub mod Pkg
pub mod Relation
