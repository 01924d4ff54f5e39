-- ===== src/Contracts.antt =====
-- pkg/contracts/events.go and keys.go, and the part of pkg/policyapi that the cascade reads: the
-- events of the topics, and the resolved policy. Identifiers are texts; a message's text is the list
-- of its runes; times are nanoseconds.
use dabet.Prelude.{ℕ, String, Runes, List, Option}

pub data Topic : Type 0 where
  messages_topic flagged_topic deletions_topic usage_topic : Topic

pub data Detector : Type 0 where
  rate_limit duplicate semantic_spam restricted_word restricted_content : Detector

pub data Action : Type 0 where
  auto_delete review : Action

pub data EventType : Type 0 where
  messages_processed messages_reclustered : EventType

pub record Message : Type 0 where
  pub message_id : String
  pub content_id : String
  pub author_id : String
  pub creator_id : String
  pub text : Runes
  pub ingested_at : ℕ

pub record Flagged : Type 0 where
  pub message_id : String
  pub content_id : String
  pub author_id : String
  pub creator_id : String
  pub text : Runes
  pub detector : Detector
  pub action : Action
  pub policy_id : String
  pub flagged_at : ℕ

pub record Deletion : Type 0 where
  pub message_id : String
  pub content_id : String
  pub creator_id : String
  pub reason : Detector
  pub issued_at : ℕ

pub record Usage : Type 0 where
  pub creator_id : String
  pub event_type : EventType
  pub quantity : ℕ
  pub window_start : ℕ
  pub window_end : ℕ
  pub idempotency_key : String

-- The partition keys are the identifiers themselves; that of messages.v1 is hashed by the producer.
abbrev pub flagged_key : String → String
flagged_key creator_id = creator_id

abbrev pub deletions_key : String → String
deletions_key content_id = content_id

abbrev pub usage_key : String → String
usage_key creator_id = creator_id

pub data SpamMode : Type 0 where
  spam_none spam_identical spam_semantic : SpamMode

pub data RestrictedContentAction : Type 0 where
  action_auto action_review : RestrictedContentAction

pub record RestrictedContentEntry : Type 0 where
  pub title : Runes
  pub description : Runes
  pub examples : List Runes

-- Both limits are set or both are absent.
pub record ResolvedPolicy : Type 0 where
  pub policy_id : String
  pub rate_limit_messages : Option ℕ
  pub rate_limit_seconds : Option ℕ
  pub spam : SpamMode
  pub restricted_words : List Runes
  pub restricted_content : List RestrictedContentEntry
  pub restricted_content_action : RestrictedContentAction
