-- ===== src/Insights/Buffer/Conservation.antt =====
-- No message of the exclusion buffer (services/insights-service/internal/ingest/buffer.go) is lost.
use dabet.Prelude.{
  count, count-append, ◌&&◌, map, str_eq_iff, Bool, ◌++◌, sym, ◌∙◌, inr, inl, str_eq, Option-cases,
  ap, Bool-cases, some, none, arith, ◌+◌, ◌≡◌, length, ℕ, String, List, refl, [], ◌∷◌,
}
use dabet.Prelude.Dict.{string_eq, lookup, delete}
use dabet.Insights.Buffer.{
  Buffer, BufferEntry, BufferedMessage, add_message, flag_message, pop_due, pop_loop, drain,
  push_back, evict_oldest, set_buffered, remove_ref,
}
use dabet.Insights.Buffer.Synced.{IsSynced, Ordered, find_ref, find_ref-after}

-- The messages of a list of elements.
abbrev pub messages : List BufferEntry → List BufferedMessage
messages es = map (λ (e : BufferEntry). e.msg) es

abbrev pub is_named : String → BufferedMessage → Bool
is_named id msg = str_eq msg.message_id id

module _ (p : BufferedMessage → Bool) where
  -- The messages that the buffer answers for, of those that a test picks.
  abbrev pub held : Buffer → ℕ
  held b = count p (messages b.order) + count p b.ready

  pop_loop-count :
      (es : List BufferEntry) (m : List (String × ℕ)) (now : ℕ)
      → count p (pop_loop es m now).out + count p (messages (pop_loop es m now).rest)
        ≡ count p (messages es)
  unfolding pop_loop
  pop_loop-count [] m now = refl
  pop_loop-count (e ∷ es) m now = ground (arith, pop_loop-count es (delete e.msg.message_id m) now)

  messages-append :
      (es : List BufferEntry) (e : BufferEntry)
      → count p (messages (es ++ e ∷ [])) ≡ count p (messages es) + count p (e.msg ∷ [])
  messages-append [] e = omega arith
  messages-append (x ∷ es) e = omega (arith, messages-append es e)

  none_named :
      (id : String) (es : List BufferEntry)
      → find_ref id es ≡ none
      → count (λ m. is_named id m && p m) (messages es) ≡ 0
  none_named id [] h = refl
  none_named id (e ∷ es) h = ground (arith, none_named id es, h)

  -- What a flag takes out of the list is what has the identifier.
  remove_ref-count :
      (id : String) (ref : ℕ) (es : List BufferEntry)
      → Ordered es
      → find_ref id es ≡ some ref
      → count p (messages (remove_ref ref es)) + count (λ m. is_named id m && p m) (messages es)
        ≡ count p (messages es)
  unfolding remove_ref
  remove_ref-count id ref [] o h = absurd (cc)
  remove_ref-count id ref (e ∷ es) (once, (after, o)) h =
      elim (Bool-cases (str_eq e.msg.message_id id)) [
        | inl here ↦
            let same : e.msg.message_id ≡ id = (str_eq_iff e.msg.message_id id).0 here in
            ground (arith, here, h, none_named id es (ap (λ i. find_ref i es) (sym same) ∙ once))
        | inr later ↦
            let found : find_ref id es ≡ some ref = rw later at h in
            ground (
              arith,
              later,
              remove_ref-count id ref es o found,
              find_ref-after id e.ref ref es found after,
            )
      ]

  evict_oldest-held :
      (b : Buffer) (es : List BufferEntry) → b.order ≡ es → held (evict_oldest b es) ≡ held b
  unfolding evict_oldest
  evict_oldest-held b [] h = refl
  evict_oldest-held b (e ∷ es) h =
      omega (arith, ap (λ l. count p (messages l)) h, count-append p b.ready (e.msg ∷ []))

  push_back-held :
      (b : Buffer) (msg : BufferedMessage) (now : ℕ)
      → held (push_back b msg now) ≡ held b + count p (msg ∷ [])
  unfolding push_back
  push_back-held b msg now = omega (
    arith,
    messages-append b.order (record { ref = b.allocated; msg = msg; deadline = now + b.window }),
  )

  add_message-held :
      (b : Buffer) (msg : BufferedMessage) (now : ℕ)
      → held (add_message b msg now)
        ≡ held b
          + (elim (lookup msg.message_id b.entries) [ none ↦ count p (msg ∷ []) | some ref ↦ 0 ])
  unfolding add_message set_buffered
  add_message-held b msg now = elim (Option-cases (lookup msg.message_id b.entries)) [
    | inl new ↦
        let b' = push_back b msg now in
        ground (arith, new, evict_oldest-held b' b'.order refl, push_back-held b msg now)
    | inr (ref, there) ↦ ground (arith, there)
  ]

  flag_message-held :
      (b : Buffer) (id : String)
      → IsSynced b
      → held (flag_message b id).0 + count (λ m. is_named id m && p m) (messages b.order) ≡ held b
  unfolding flag_message set_buffered
  flag_message-held b id s = elim (Option-cases (lookup id b.entries)) [
    | inl absent ↦ ground (arith, absent, none_named id b.order (sym (s.agree id) ∙ absent))
    | inr (ref, there) ↦
        ground (arith, there, remove_ref-count id ref b.order s.ordered (sym (s.agree id) ∙ there))
  ]

  -- In a buffer whose map and list agree no message is lost or doubled, whichever a test picks: a new
  -- one is held, one that is there already changes nothing, a flag takes out of the list the messages
  -- of its identifier and no other, PopDue takes out what it releases, and Drain leaves nothing. What
  -- Drain returns counts the list only, not the messages evicted before.
  pub buffer-conserves :
      (b : Buffer) (msg : BufferedMessage) (now : ℕ) (id : String)
      → IsSynced b
      → (held (add_message b msg now)
          ≡ held b
            + (elim (lookup msg.message_id b.entries) [ none ↦ count p (msg ∷ []) | some ref ↦ 0 ]))
        × (held (flag_message b id).0 + count (λ m. is_named id m && p m) (messages b.order)
            ≡ held b)
        × (held (pop_due b now).0 + count p (pop_due b now).1 ≡ held b)
        × (held (drain b).0 ≡ 0)
        × ((drain b).1 ≡ length b.order)
  unfolding pop_due drain set_buffered
  buffer-conserves b msg now id s = (
    add_message-held b msg now,
    flag_message-held b id s,
    omega (
      arith,
      pop_loop-count b.order b.entries now,
      count-append p b.ready (pop_loop b.order b.entries now).out,
    ),
    refl,
    refl,
  )
