-- ===== src/Moderation/Pipeline/State.antt =====
-- pipeline.go: the configuration, the shared state, what the other services answer, and the effects.
use dabet.Prelude.{◌*◌, ℕ, Bool, Option, none, some, List, [], ◌∷◌, String, Runes, false}
use dabet.Prelude.Int.{pos, ℤ}
use dabet.Prelude.Floats.{Floats}
use dabet.Contracts.{Flagged, Deletion, Detector, Action, ResolvedPolicy}
use dabet.Moderation.Breaker.{new_breaker, Breaker}
use dabet.Moderation.Batcher.{new_batcher, Batcher}
use dabet.Moderation.MemSampler.{new_mem_sampler, MemSampler}
use dabet.Moderation.UsageAggregator.{Aggregator}
use dabet.Moderation.Match.{Matcher}
use dabet.Moderation.RedisState.{CascadeParams, CascadeResult}
use dabet.Moderation.Vector.{Vec}

pub record Config (f : Floats) : Type 0 where
  pub seen_ttl : ℕ
  pub dup_depth : ℕ
  pub dup_ttl : ℕ
  pub emb_depth : ℕ
  pub emb_ttl : ℕ
  pub semantic_threshold : f.Float
  pub sampler_capacity : f.Float
  pub sampler_per_min : f.Float
  pub sampler_ttl : ℕ
  pub llm_batch_size : ℤ
  pub llm_linger : ℤ
  pub redis_breaker_threshold : ℤ
  pub redis_breaker_cooldown : ℤ
  pub redis_breaker_max_cooldown : ℤ

-- An entry of the policy cache: no policy is the cached negative answer, no matcher a policy without
-- restricted words.
pub record CachedPolicy : Type 0 where
  pub policy : Option ResolvedPolicy
  pub matcher : Option Matcher

-- The places where one message reads the clock for something other than a duration metric.
pub data Site : Type 0 where
  allow_site seen_site usage_site rate_site cascade_site append_site take_site : Site
  sampled_site fallback_site batch_site flag_site deletion_site : Site

-- What the clock, Redis, the other services and the broker answer to the calls of one message. none
-- is an error.
pub record Answers (f : Floats) : Type 0 where
  pub clock : Site → ℕ
  pub seen : String → ℕ → Option Bool
  pub policy : String → String → Option CachedPolicy
  pub credits_ok : String → Bool
  pub cascade : String → String → CascadeParams f → Option (CascadeResult f)
  pub embed : List Runes → Option (List (Vec f))
  pub emb_append : String → String → Vec f → ℕ → ℕ → Bool
  pub take_token : String → f.Float → f.Float → ℕ → ℕ → Option Bool
  pub hash_text : Runes → String
  pub flagged_acked : Flagged → Bool

pub data Outcome : Type 0 where
  skipped clean flagged : Outcome

pub data Component : Type 0 where
  redis policy_service credits embedding llm : Component

pub data RedisCall : Type 0 where
  seen_call cascade_call append_call token_call : RedisCall

-- What a message makes visible: the metrics that count decisions, the calls to Redis, and the
-- records handed to the publisher with their keys. Duration histograms and trace spans are left out.
pub data Effect : Type 0 where
  outcome : Outcome → Effect
  fail_open : Component → Effect
  dependency_up : Component → Bool → Effect
  redis_call : RedisCall → Effect
  detector_hit : Detector → Action → Effect
  publish_flagged : String → Flagged → Effect
  publish_deletion : String → Deletion → Effect
  e2e_latency : Effect
  sampler_skipped : Effect

-- The state that messages share.
pub record Pipe (f : Floats) : Type 0 where
  pub breaker : Breaker
  pub mem_samp : MemSampler f
  pub batcher : Batcher
  pub usage : Aggregator

abbrev pub millis : ℕ → ℕ
millis n = n * 1000000

abbrev pub seconds_ns : ℕ → ℕ
seconds_ns n = n * 1000000000

abbrev pub minutes : ℕ → ℕ
minutes n = n * 60000000000

unfoldable pub default_config : (f : Floats) → Config f
default_config f = record {
  seen_ttl = minutes 5;
  dup_depth = 20;
  dup_ttl = minutes 5;
  emb_depth = 20;
  emb_ttl = minutes 5;
  semantic_threshold = f.div (f.of_ℕ 95) (f.of_ℕ 100);
  sampler_capacity = f.of_ℕ 30;
  sampler_per_min = f.of_ℕ 30;
  sampler_ttl = minutes 5;
  llm_batch_size = pos 32;
  llm_linger = pos (millis 50);
  redis_breaker_threshold = pos 5;
  redis_breaker_cooldown = pos (millis 500);
  redis_breaker_max_cooldown = pos (seconds_ns 5);
}

unfoldable pub new_pipe : {f : Floats} → Config f → Aggregator → Pipe f
new_pipe {f} cfg usage = record {
  breaker =
      new_breaker cfg.redis_breaker_threshold cfg.redis_breaker_cooldown
        cfg.redis_breaker_max_cooldown;
  mem_samp = new_mem_sampler f cfg.sampler_capacity cfg.sampler_per_min cfg.sampler_ttl;
  batcher = new_batcher cfg.llm_batch_size cfg.llm_linger;
  usage = usage;
}

-- One message under way: the shared state, its redisGate, and its effects, newest first.
pub record Run (f : Floats) : Type 0 where
  pub pipe : Pipe f
  pub decided : Bool
  pub allowed : Bool
  pub probe : Bool
  pub counted : Bool
  pub trace : List Effect

module _ {f : Floats} where
  abbrev pub start : Pipe f → Run f
  start p = record {
    pipe = p;
    decided = false;
    allowed = false;
    probe = false;
    counted = false;
    trace = [];
  }

  abbrev pub emit : Effect → Run f → Run f
  emit e r = record r { trace = e ∷ r.trace }

  abbrev pub with_breaker : Breaker → Run f → Run f
  with_breaker b r = record r { pipe = record (r.pipe) { breaker = b } }

  abbrev pub with_usage : Aggregator → Run f → Run f
  with_usage u r = record r { pipe = record (r.pipe) { usage = u } }

  abbrev pub with_mem_samp : MemSampler f → Run f → Run f
  with_mem_samp s r = record r { pipe = record (r.pipe) { mem_samp = s } }

-- A stage ends the message (none), or hands a value to the next.
abbrev pub M : Floats → Type 0 → Type 0
M f A = Run f → Run f × Option A

infixl 5 ◌>>=◌ ◌>>◌
abbrev pub ◌>>=◌ : {f : Floats} {A B : Type 0} → M f A → (A → M f B) → M f B
◌>>=◌ m k r = let (r', o) = m r in elim o [ none ↦ (r', none) | some a ↦ k a r' ]

abbrev pub ◌>>◌ : {f : Floats} {B : Type 0} → M f (Unit {0}) → M f B → M f B
m >> k = m >>= λ _. k
