-- ===== src/Moderation/Breaker/Probe.antt =====
-- The half-open probe: who holds the token, and how the breaker trips.
use dabet.Prelude.{
  ℕ, ◌+◌, ◌-◌, ◌≤◌, ◌≡◌, refl, true, false, List, [], ◌∷◌, arith, if◌then◌else◌, leb, length,
}
use dabet.Moderation.Breaker.{Breaker, allow, trip, succeed, fail}
use dabet.Moderation.Breaker.Invariant.{IsValid}

-- The breaker with the number of messages that hold a probe token they have not reported yet.
pub record Traffic : Type 0 where
  pub breaker : Breaker
  pub holders : ℕ

-- Messages ask and report in any order; a probe is reported by one that holds it.
pub data Step : Traffic → Traffic → Type 0 where
  ask :
      (t : Traffic) (now : ℕ)
      → Step t (record t {
        breaker = (allow t.breaker now).0;
        holders = t.holders + (if (allow t.breaker now).1.probe then 1 else 0);
      })
  plain_ok : (t : Traffic) (now : ℕ) → Step t (record t { breaker = succeed t.breaker now false })
  plain_fail : (t : Traffic) (now : ℕ) → Step t (record t { breaker = fail t.breaker now false })
  probe_ok :
      (t : Traffic) (now : ℕ)
      → 1 ≤ t.holders
      → Step t (record t { breaker = succeed t.breaker now true; holders = t.holders - 1 })
  probe_fail :
      (t : Traffic) (now : ℕ)
      → 1 ≤ t.holders
      → Step t (record t { breaker = fail t.breaker now true; holders = t.holders - 1 })

pub data Reach (s : Traffic) : Traffic → Type 0 where
  here : Reach s s
  next : {t u : Traffic} → Reach s t → Step t u → Reach s u

-- The token is out exactly while the breaker says that it is probing.
abbrev pub Counted : Traffic → Type 0
Counted t = t.holders ≡ (if t.breaker.probing then 1 else 0)

Step-Counted : {t u : Traffic} → Step t u → Counted t → Counted u
unfolding allow succeed fail trip
Step-Counted (ask t now) c = ground arith
Step-Counted (plain_ok t now) c = ground arith
Step-Counted (plain_fail t now) c = ground arith
Step-Counted (probe_ok t now held) c = ground arith
Step-Counted (probe_fail t now held) c = ground arith

Reach-Counted : {s t : Traffic} → Counted s → Reach s t → Counted t
Reach-Counted c here = c
Reach-Counted c (next r st) = Step-Counted st (Reach-Counted c r)

-- From a moment when no message holds a token and the breaker is not probing, however the calls
-- interleave: at most one message holds the probe token, and while one does an open breaker admits
-- no other call.
pub one_probe :
    {s t : Traffic} (now : ℕ)
    → s.holders ≡ 0
    → s.breaker.probing ≡ false
    → Reach s t
    → (t.holders ≤ 1)
      × (t.holders ≡ 1 → t.breaker.is_open ≡ true → (allow t.breaker now).1.allowed ≡ false)
unfolding allow
one_probe {s} {t} now none_held idle r =
    let c : Counted t = Reach-Counted (ground arith) r in (ground arith, λ h o. ground arith)

-- The consecutive failures of a closed breaker, at the given times.
pub fail_all : Breaker → List ℕ → Breaker
fail_all b [] = b
fail_all b (now ∷ ts) = fail_all (fail b now false) ts

fail_all_open : (b : Breaker) (ts : List ℕ) → b.is_open ≡ true → fail_all b ts ≡ b
unfolding fail_all fail
fail_all_open b [] o = refl
fail_all_open b (now ∷ ts) o = ground (arith, fail_all_open b ts)

trip_open : (b : Breaker) (now : ℕ) → (trip b now).is_open ≡ true
unfolding trip
trip_open b now = refl

-- A valid breaker that is closed opens at the failure that reaches the threshold, and not before.
pub fail_all-is_open :
    (b : Breaker) (ts : List ℕ)
    → IsValid b
    → b.is_open ≡ false
    → (fail_all b ts).is_open ≡ leb b.threshold (b.failures + length ts)
unfolding fail_all fail
fail_all-is_open b [] v o = ground arith
fail_all-is_open b (now ∷ ts) v o = ground (
  arith,
  trip_open (record b { failures = 0 }) now,
  fail_all_open (trip (record b { failures = 0 }) now) ts,
  fail_all-is_open (record b { failures = b.failures + 1 }) ts,
)
