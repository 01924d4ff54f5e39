-- ===== src/Examples/Breakers.antt =====
-- A breaker that trips and is probed.
use dabet.Examples.Fixtures.{open_breaker}
use dabet.Prelude.Int.{pos}
use dabet.Moderation.Breaker.Probe.{ask, here, next, one_probe, Traffic}
use dabet.Moderation.Breaker.{new_breaker, allow, Breaker}
use dabet.Prelude.{if◌then◌else◌, true, false, ◌+◌, ◌≡◌, ◌≤◌, refl}

abbrev five : Breaker
five = new_breaker (pos 5) (pos 50) (pos 300)

abbrev asked : Traffic
asked = record {
  breaker = (allow open_breaker 250).0;
  holders = 0 + (if (allow open_breaker 250).1.probe then 1 else 0);
}

one_probe_example :
    (asked.holders ≤ 1)
    × (asked.holders ≡ 1
        → asked.breaker.is_open ≡ true
        → (allow asked.breaker 260).1.allowed ≡ false)
one_probe_example =
    one_probe {s = record { breaker = open_breaker; holders = 0 }} {t = asked} 260 refl refl
      (next here (ask (record { breaker = open_breaker; holders = 0 }) 250))
