-- ===== src/Examples/Ledgers.antt =====
-- A ledger with a replayed charge, and a document in its normal form.
use dabet.Contracts.{messages_processed}
use dabet.Credits.UsageConsumer.{Incoming, Rates}
use dabet.Policy.Scope.{twitch, validate_scope}
use dabet.Prelude.Int.{negsuc, pos}
use dabet.Examples.Fixtures.{whole, bad}
use dabet.Credits.Ledger.{balance, row_of, new_memory, apply}
use dabet.Credits.Ledger.Balances.{apply-apply, new_memory-IsSettled, apply-IsSettled, IsSettled}
use dabet.Policy.Validate.Words.{IsLowering}
use dabet.Policy.Validate.Limits.{validate_and_normalize-IsInLimits, IsInLimits}
use dabet.Policy.Validate.{ok, validate_and_normalize, Document}
use dabet.Prelude.{some, Option, ◌++◌, Runes, true, [], ◌∷◌, ◌≡◌, none, refl}

apply-IsSettled_example : IsSettled (apply new_memory "k1" (pos 10) "topup" "key" 5).0
apply-IsSettled_example =
    apply-IsSettled new_memory "k1" (pos 10) "topup" "key" 5 new_memory-IsSettled

apply-apply_example :
    (let m' = (apply new_memory "k1" (pos 10) "topup" "key" 5).0 in
      apply m' "k1" (negsuc 2) "usage" "key" 6
      ≡ (m', record { replayed = true; balance = (row_of (balance m' "k1")).balance }))
apply-apply_example = apply-apply new_memory "k1" (pos 10) "topup" "key" 5 "k1" (negsuc 2) "usage" 6

abbrev draft : Document
draft = record {
  rate_limit_messages = none;
  rate_limit_seconds = none;
  spam = "";
  restricted_words = bad ∷ bad ∷ [];
  restricted_content = [];
  restricted_content_action = "";
}

abbrev stored : Document
stored = record draft {
  spam = "none";
  restricted_words = bad ∷ [];
  restricted_content_action = "auto";
}

same-IsLowering : IsLowering (λ s. s)
same-IsLowering = record { idempotent = λ s. refl; length-to_lower = λ s. refl }

draft-stored : validate_and_normalize (λ s. s) draft ≡ ok stored
unfolding validate_and_normalize
draft-stored = refl

validate_and_normalize-IsInLimits_example : IsInLimits (λ s. s) stored
validate_and_normalize-IsInLimits_example =
    validate_and_normalize-IsInLimits (λ s. s) draft stored same-IsLowering draft-stored

abbrev on_twitch : Runes
on_twitch = (bad ++ b':' ∷ []) ++ twitch

on_twitch-ok : validate_scope "platform" on_twitch bad ≡ ok tt
unfolding validate_scope
on_twitch-ok = refl

abbrev one_credit : Rates whole
one_credit = record { messages_processed = 1; messages_reclustered = 1 }

abbrev usage_of_k1 : Option Incoming
usage_of_k1 = some (record {
  creator_id = "k1";
  event_type = some messages_processed;
  quantity = pos 3;
  idempotency_key = "key";
})
