-- ===== src/Moderation/Pipeline/Gate.antt =====
-- pipeline.go, redisGate: one message's view of the shared breaker.
use dabet.Prelude.{Bool, true, false, not, if◌then◌else◌, ℕ}
use dabet.Prelude.Floats.{Floats}
use dabet.Moderation.Breaker.{allow, succeed, fail}
use dabet.Moderation.Pipeline.State.{
  Run, Answers, emit, with_breaker, fail_open, dependency_up, redis, allow_site,
}

module _ {f : Floats} where
  -- The single fail-open of the message.
  unfoldable pub skipped : Run f → Run f
  skipped r = if r.counted then r else emit (fail_open redis) (record r { counted = true })

  -- The breaker is asked once per message.
  unfoldable pub decide : Answers f → Run f → Run f
  decide env r =
      if r.decided
      then r
      else (let (b, permit) = allow r.pipe.breaker (env.clock allow_site) in
          let r' : Run f = record (with_breaker b r) {
            decided = true;
            allowed = permit.allowed;
            probe = permit.probe;
          } in
          if permit.allowed then r' else emit (dependency_up redis false) r')

  -- `has_state` is `p.state != nil`.
  unfoldable pub use_redis : Bool → Answers f → Run f → Run f × Bool
  unfolding skipped decide
  use_redis has_state env r =
      if not has_state
      then (skipped r, false)
      else (let r' = decide env r in if r'.allowed then (r', true) else (skipped r', false))

  unfoldable pub gate_ok : ℕ → Run f → Run f
  gate_ok now r =
      emit (dependency_up redis true)
        (record (with_breaker (succeed r.pipe.breaker now r.probe) r) { probe = false })

  unfoldable pub gate_fail : ℕ → Run f → Run f
  unfolding skipped
  gate_fail now r = skipped (
      emit (dependency_up redis false) (record (with_breaker (fail r.pipe.breaker now r.probe) r) {
        probe = false;
        allowed = false;
      }))
