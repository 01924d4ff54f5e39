-- ===== src/Examples/Fixtures.antt =====
-- The concrete values of the examples. Floats are natural numbers here.
use dabet.Moderation.RedisState.{cascade_none}
use dabet.Prelude.Int.{pos}
use dabet.Moderation.Normalize.{Unicode}
use dabet.Prelude.{ltb, ◌/◌, ◌*◌, none, ◌-◌, leb, false, [], ◌+◌, ◌∷◌, ℕ, true, some, ◌==◌, Runes}
use dabet.Moderation.Service.{Model}
use dabet.Contracts.{action_review, spam_semantic, ResolvedPolicy, Message}
use dabet.Prelude.Floats.{Floats}
use dabet.Moderation.Breaker.{Breaker}
use dabet.Moderation.Batcher.{size_trigger, Batch}
use dabet.Moderation.Pipeline.State.{Pipe, Config, Answers}

abbrev pub whole : Floats
whole = record {
  Float = ℕ;
  of_ℕ = λ n. n;
  add = λ a b. a + b;
  sub = λ a b. a - b;
  mul = λ a b. a * b;
  div = λ a b. a / b;
  sqrt = λ a. a;
  le = leb;
  lt = ltb;
  seconds = λ n. n / 1000000000;
}

abbrev pub ascii : Unicode
ascii = record {
  to_lower = λ s. s;
  is_space = λ r. r == b' ';
  is_letter = λ r. leb b'a' r;
  is_digit = λ r. false;
}

abbrev pub bad : Runes
bad = b'b' ∷ b'a' ∷ b'd' ∷ []

abbrev pub hello : Message
hello = record {
  message_id = "m1";
  content_id = "c1";
  author_id = "a1";
  creator_id = "k1";
  text = bad;
  ingested_at = 40;
}

abbrev pub rules : ResolvedPolicy
rules = record {
  policy_id = "p1";
  rate_limit_messages = some 5;
  rate_limit_seconds = some 10;
  spam = spam_semantic;
  restricted_words = bad ∷ [];
  restricted_content = record { title = bad; description = bad; examples = [] } ∷ [];
  restricted_content_action = action_review;
}

abbrev pub config : Config whole
config = record {
  seen_ttl = 10;
  dup_depth = 3;
  dup_ttl = 10;
  emb_depth = 2;
  emb_ttl = 10;
  semantic_threshold = 1;
  sampler_capacity = 5;
  sampler_per_min = 60;
  sampler_ttl = 10;
  llm_batch_size = pos 2;
  llm_linger = pos 100;
  redis_breaker_threshold = pos 5;
  redis_breaker_cooldown = pos 50;
  redis_breaker_max_cooldown = pos 300;
}

abbrev pub answers : Answers whole
answers = record {
  clock = λ s. 100;
  seen = λ id ttl. some false;
  policy = λ creator content. some (record { policy = some rules; matcher = none });
  credits_ok = λ creator. true;
  cascade = λ content author p. some (record { hit = cascade_none; vectors = [] });
  embed = λ texts. none;
  emb_append = λ content author v depth ttl. true;
  take_token = λ key capacity rate now ttl. some true;
  hash_text = λ text. "h";
  flagged_acked = λ ev. true;
}

abbrev pub open_breaker : Breaker
open_breaker = record {
  threshold = 5;
  cooldown = 50;
  max_cooldown = 300;
  failures = 0;
  is_open = true;
  open_until = 200;
  probing = false;
  trips = 1;
  closed_at = none;
}

abbrev pub pipe : Breaker → Pipe whole
pipe b = record {
  breaker = b;
  mem_samp = record { capacity = 5; refill_per_sec = 1; idle_ttl = 10; buckets = []; ops = 0 };
  batcher = record { max_size = 2; linger = 100; pending = [] };
  usage = record { instance_id = "i1"; counts = [] };
}

abbrev pub full_batch : Batch
full_batch = record { policy = rules; messages = hello ∷ []; trigger = size_trigger }

abbrev pub model : Model
model = record {
  ask = λ policy texts. some (record { i = pos 1; violates = pos 1 } ∷ []);
  flagged_acked = λ ev. true;
  flagged_at = λ i. 100;
  issued_at = λ i. 100;
}
