-- ===== src/Examples/Policies.antt =====
-- A repository with the policy of a creator, to which the policy of a content is added.
use dabet.Prelude.{
  ◌⊎◌, inl, map, arith, String, Runes, List, some, inr, ◌≡◌, true, none, refl, [], ◌∷◌,
}
use dabet.Prelude.Dict.{string_eq}
use dabet.Policy.Validate.{Document}
use dabet.Policy.Store.{StoreError, not_found, Mem, Policy, create, get_by_scope, remove}
use dabet.Policy.Resolver.{resolve_from_db, content, creator, candidates, candidates_loop}
use dabet.Policy.Resolver.Precedence.{create-resolve}
use dabet.Policy.Resolver.Cached.Answers.{run_resolves_lem, fair}
use dabet.Policy.Resolver.Cached.{
  Request, Weather, NoBar, garbled, unreachable, run_resolves, resolve_cached, from_db,
}

abbrev no_rules : Document
no_rules = record {
  rate_limit_messages = none;
  rate_limit_seconds = none;
  spam = "none";
  restricted_words = [];
  restricted_content = [];
  restricted_content_action = "review";
}

abbrev of_creator : Policy
of_creator = record {
  id = "p1";
  creator_id = b'c' ∷ [];
  scope = "creator";
  scope_id = b'c' ∷ [];
  document = no_rules;
  created_at = 1;
  updated_at = 1;
}

abbrev of_content : Policy
of_content = record {
  id = "p2";
  creator_id = b'c' ∷ [];
  scope = "content";
  scope_id = b'v' ∷ [];
  document = no_rules;
  created_at = 2;
  updated_at = 2;
}

abbrev one_policy : Mem
one_policy = ("p1", of_creator) ∷ []

abbrev two_policies : Mem
two_policies = ("p1", of_creator) ∷ ("p2", of_content) ∷ []

creates_p2 : create one_policy of_content ≡ inr two_policies
unfolding create
creates_p2 = refl

create-resolve_example :
    resolve_from_db (get_by_scope two_policies) (b'c' ∷ []) [] (b'v' ∷ [])
    ≡ inr (some of_content, content)
create-resolve_example =
    create-resolve one_policy two_policies of_content (b'c' ∷ []) [] creates_p2 refl
      (λ e. absurd (cc))

removes_p2 : remove two_policies "p2" ≡ inr one_policy
unfolding remove
removes_p2 = refl

abbrev own : Request
own = record { creator_id = b'c' ∷ []; platform_id = []; content_id = [] }

no_bar : NoBar (b'c' ∷ []) × NoBar []
no_bar = ((λ e. absurd (ground (arith, e)), tt), tt)

-- The entry is garbled for the second of three requests, and the last is not answered by the store.
abbrev requests : List (Weather × Request)
requests =
    (fair, own)
    ∷ (record { reading = garbled; set_fails = true }, own)
    ∷ (record { reading = unreachable; set_fails = true }, own)
    ∷ []

abbrev nothing_found : String → Runes → StoreError ⊎ Policy
nothing_found scope id = inl not_found

run_resolves_lem_example :
    ((run_resolves (get_by_scope two_policies) requests []).0
      ≡ map (λ (x : Weather × Request). from_db (get_by_scope two_policies) x.1) requests)
    × ((resolve_cached nothing_found fair own
          (resolve_cached
            (get_by_scope two_policies)
            fair
            own
            (run_resolves (get_by_scope two_policies) requests []).1).1).0
        ≡ inr (some of_creator, creator))
unfolding resolve_from_db candidates candidates_loop get_by_scope
run_resolves_lem_example =
    run_resolves_lem (get_by_scope two_policies) nothing_found requests own
      (no_bar, (no_bar, (no_bar, tt))) no_bar
