-- ===== src/Moderation/MemSampler.antt =====
-- services/moderation-service/internal/mod/memsampler.go: the token bucket per content that takes the
-- place of the Redis sampler while Redis is down.
use dabet.Prelude.{
  [], ℕ, ◌+◌, ◌-◌, ◌%◌, Bool, not, Option, none, some, List, keep, ltb, ◌==◌, if◌then◌else◌, String,
}
use dabet.Prelude.Dict.{lookup, insert, string_eq}
use dabet.Prelude.Floats.{Floats}

pub record Bucket (f : Floats) : Type 0 where
  pub tokens : f.Float
  pub ts : ℕ

pub record MemSampler (f : Floats) : Type 0 where
  pub capacity : f.Float
  pub refill_per_sec : f.Float
  pub idle_ttl : ℕ
  pub buckets : List (String × Bucket f)
  pub ops : ℕ

module _ (f : Floats) where
  unfoldable pub new_mem_sampler : f.Float → f.Float → ℕ → MemSampler f
  new_mem_sampler capacity refill_per_min idle_ttl = record {
    capacity = capacity;
    refill_per_sec = f.div refill_per_min (f.of_ℕ 60);
    idle_ttl = idle_ttl;
    buckets = [];
    ops = 0;
  }

  -- A content's bucket, full if it is new.
  abbrev pub bucket_of : MemSampler f → Option (Bucket f) → ℕ → Bucket f
  bucket_of s none now = record { tokens = s.capacity; ts = now }
  bucket_of s (some b) now = b

  -- The refill for the time since `ts`; time that runs backwards adds nothing.
  unfoldable pub refill : MemSampler f → Bucket f → ℕ → f.Float
  refill s b now =
      if ltb b.ts now
      then (let tokens = f.add b.tokens (f.mul (f.seconds (now - b.ts)) s.refill_per_sec) in
          if f.lt s.capacity tokens then s.capacity else tokens)
      else b.tokens

  unfoldable pub sweep : ℕ → MemSampler f → MemSampler f
  sweep now s = record s { buckets = keep (λ e. not (ltb s.idle_ttl (now - e.1.ts))) s.buckets }

  unfoldable pub allow : MemSampler f → String → ℕ → MemSampler f × Bool
  unfolding refill sweep
  allow s content_id now =
      let tokens = refill s (bucket_of s (lookup content_id s.buckets) now) now in
      let allowed = f.le (f.of_ℕ 1) tokens in
      let left = if allowed then f.sub tokens (f.of_ℕ 1) else tokens in
      let b : Bucket f = record { tokens = left; ts = now } in
      let s' : MemSampler f = record s {
        buckets = insert content_id b s.buckets;
        ops = s.ops + 1;
      } in
      (if s'.ops % 4096 == 0 then sweep now s' else s', allowed)
