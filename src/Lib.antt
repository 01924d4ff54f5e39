-- ===== src/Lib.antt =====
-- Dabet moderates chat messages as they stream through Kafka. This library models the core of its
-- services and proves what makes it correct.
--
-- The parts and how they interact. The moderation service (services/moderation-service/internal/mod)
-- consumes messages.v1. Its handler Process runs each message through a cascade: the redelivery
-- guard, the creator's policy, credits, the merged Redis stages (rate limit, duplicates, the window of
-- embeddings), the semantic comparison, restricted words, and the sampler; what passes waits in a
-- batcher for a language model. A verdict goes to flagged.v1, an automatic deletion also to
-- deletions.v1, and processed messages are billed per minute on usage.v1. A circuit breaker guards
-- Redis for all messages at once. The policy service checks the documents that creators write; the
-- credits service keeps the ledger that usage is charged to. A consumer of Kafka (pkg/kafkax) handles
-- the keys of a partition concurrently and commits through a low-water mark. The provider adapter
-- shards its connections over instances by a consistent-hash ring, drops the messages that a platform
-- delivers twice, and issues the opaque ids of contents, authors and messages. The insights service
-- holds messages back in an exclusion buffer until no flag is expected any more. The review service
-- shows a creator the flagged messages that wait for them, from a cursor on their partition of
-- flagged.v1, and applies their decisions.
--
-- Files and code:
--   Contracts: pkg/contracts/events.go, keys.go, and the resolved policy of pkg/policyapi.
--   Moderation/Breaker: breaker.go (NewBreaker, Allow, Succeed, Fail, trip, backoff); Backoff,
--   Invariant and Probe have its lemmas, Probe with a relation for the interleavings of its callers.
--   Moderation/Batcher: the LLMBatcher of llm.go (Add, Due, FlushAll).
--   Moderation/Classify: the end of Classify in llm.go, which assembles the verdicts.
--   Moderation/UsageAggregator: usage.go (Inc, flush, FlushDue, FlushAll), with the lives of an instance
--   in Windows and Lives as its sections under the lock, each with the time that was read before.
--   Moderation/MemSampler, Match, Normalize, Vector, RedisState, PolicyCache, Publisher: the files of
--   the same names (matcher in match.go, publisher in publish.go).
--   Moderation/Pipeline: Process, flag and redisGate of pipeline.go. State has the configuration, the
--   shared state and the effects, Gate the redisGate, Stages the stages, Cascade their sequence. Rules
--   carries a property of the stages to their sequence; Accounting, Token, Outage, Billing and
--   Outcomes prove one each.
--   Moderation/Service: dispatch, dispatchAsync, RunBackground and Shutdown of pipeline.go. Drain has the
--   life of the service as a step relation, in which handlers and the loop may go on while Shutdown
--   runs; Conservation and Ending say where its messages are.
--   Credits/Ledger: services/credits-service/internal/ledger/ledger.go and memory.go.
--   Credits/UsageConsumer: services/credits-service/internal/usage/usage.go (Delta, Handle).
--   Policy/Validate, Policy/Scope: services/policy-service/internal/policy/validate.go and
--   policy.go.
--   Policy/Store, Policy/Resolver: internal/store/memstore/memstore.go and internal/resolver/resolver.go
--   of services/policy-service. Lookups has what the store finds after a change, Precedence which policy
--   applies, Cached the requests behind a cache that requests fill.
--   Kafka/Keyed: pkg/kafkax/keyed.go: the hash and the routing of keys, and the offset tracker. Tracker
--   has the abstract queue that the tracker refines, Safety, Marking and Committing its invariant, Life
--   and Workers step relations for the coordinator and the workers of a partition.
--   Adapter/Ring: services/provider-adapter/internal/shard/ring.go. Bytes has the order of strings,
--   Members the set of the members, Lookup the points, Disruption and Ownership who owns a key.
--   Adapter/Shard: shard.go and filter.go of services/provider-adapter/internal/shard (Assign, NewFilter,
--   Assignment), with the shares of the instances in Shares and repeated polls in Filtering;
--   Coordinator has the view of kafka.go (setMembers, setConnected, Membership).
--   Adapter/Dedup: services/provider-adapter/internal/dedup/dedup.go (New, Add), with the window that it
--   refines in Window, Adding and Runs.
--   Adapter/Base62, Adapter/Opaque: base62.go and opaque.go of services/provider-adapter/internal/opaque.
--   Numbers has the digits of a number in a base.
--   Adapter/Retry: services/provider-adapter/internal/retry/retry.go (Next, Reset).
--   Insights/Buffer: services/insights-service/internal/ingest/buffer.go. Synced and Operations have its
--   invariant, Conservation what it holds, Windows what it releases and drops.
--   Review/Queue, Review/Cursors: internal/queue/queue.go, queuetest/queuetest.go,
--   internal/partition/partition.go and internal/store/memstore/memstore.go of services/review-service.
--   Logs has the log in memory as a reader, Lookups what is found in the rows.
--   Review/Window, Review/Handler, Review/Decisions, Review/Applying: internal/api/handler.go of
--   services/review-service. Window is collect, with the pages in Pages and Following; Handler is
--   resolve and list, with Reading and Paging; Decisions is validateDecisions and the matching in post,
--   with Accepting and Matching; Applying is post, with Deleting, Matches, Outcomes, Accounts and
--   Posting about what it sends, Behind, Plain and Replays about a batch that is posted again, Races
--   and Fronts about the front.
--   Review/Idem: internal/api/idem.go of services/review-service.
--   Prelude: the names, lists, integers, maps, sorting and the interface of floats that the
--   modules share.
--   Examples: the theorems at concrete inputs.
--
-- Conventions. Times and durations are nanoseconds, natural numbers; a setting that may be negative is
-- an integer and is clamped where the code clamps it. The doubled cooldown of the breaker stays below
-- twice its cap, and sums of credits stay far below 2 ^ 63, so int64 does not wrap. A method that
-- locks its mutex for its whole body is one function, one that reads the clock before is its section
-- under the lock with that time, and an interleaving of goroutines is a sequence of such sections. A stage of the cascade is a function on the run of one message that returns none where the
-- code returns. Redis, the other services, the broker, the model and the clock answer through the
-- parameters Answers, Model and Broker, functions of the arguments that the code passes; the breaker's
-- view of one message is taken without other messages in between. The policy cache is keyed by creator
-- and content, as in the code. Memcached keeps what was set under its key, or loses it, garbles it or
-- fails, as a parameter of each request says. A map is an association list, so the order in which Go iterates over
-- it is one order of many. Floats and the tables of unicode are parameters.
--
-- A request to the review service is answered on one state of its log; which calls of the database
-- fail is a parameter of the request, and the count of lost windows is the one metric that is kept. An
-- end of a scan that is negative, for none, is none.
--
-- A string that is only compared is a String; one that is taken apart is the list of its runes, or of
-- its bytes in Kafka and Adapter. SHA-256 is a parameter of the ring and the ids.
--
-- Fuel. The publisher's loop has one unit for each nanosecond of its budget and two more, which is
-- enough since every retry waits for at least one. The matcher follows fail links and fills its queue
-- on as much fuel as it has nodes. The digits of a number are taken on as much fuel as the number.
--
-- Not modelled: JSON, histograms and spans, the HTTP call and the prompt of the model, the Lua scripts
-- that run in Redis, the byte packing of vectors; the drivers, sockets and quotas of the provider
-- adapter; List of the policy store; the rest of the insights service; the other services (clustering,
-- clusters job, user); Postgres, and the HTTP layers but for the handlers of the review service; and the
-- rest of the plumbing of Kafka, HTTP and configuration.
pub mod Prelude
pub mod Adapter
pub mod Contracts
pub mod Credits
pub mod Examples
pub mod Insights
pub mod Kafka
pub mod Moderation
pub mod Policy
pub mod Review
