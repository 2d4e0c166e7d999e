-- ===== src/Core/Request/Groups.antt =====
-- crates/core/core/src/model.rs: the conversations that `validate_messages` accepts.
use mathlib.Core.List.{Perm, perm_middle, cons≢nil, append-nil, append_assoc}
use mathlib.Core.List.Perm
use jingwei.Base.{
  ℕ, suc, ◌≡◌, ◌≢◌, refl, sym, ap, ◌∙◌, subst, ◌↔◌, true, false, ◌&&◌, Option, List, [], ◌∷◌, ◌++◌,
  map, is_empty, is_none, All, arith,
}
use jingwei.Base.Result.{ok, ok->>}
use jingwei.Base.Sets.{
  contains, without, with_member, without-Perm, without-cons, Distinct, Fresh, Fresh-with_member,
  Fresh-empty, with_member-fresh,
}
use jingwei.Base.Text.{Text, is_blank}
use jingwei.Core.Json.{Json}
use jingwei.Core.Model.{ModelToolCall, ModelMessage}
use jingwei.Core.Request.{
  validate_name, validate_calls, validate_assistant, extend_pending, interrupts,
  validate_messages_from, validate_messages,
}

module _ {Value : Type 0} (json : Json Value) where
  abbrev IsCall : ModelToolCall Value → Type 0
  IsCall call = (is_blank call.name ≡ false) × (json.is_object call.arguments ≡ true)

  abbrev pub ids : List (ModelToolCall Value) → List Text
  ids = map (λ call. call.id)

  -- An assistant message: content or calls, and calls by named tools on objects under distinct ids.
  unfoldable pub IsProposal : Option Text → List (ModelToolCall Value) → Type 0
  IsProposal content calls =
      (is_none content && is_empty calls ≡ false) × All IsCall calls × Distinct (ids calls)

  -- The tool messages with the given call ids and contents.
  abbrev pub results_of : List (Text × Text) → List (ModelMessage Value)
  results_of = map (λ r. ModelMessage.tool r.0 r.1)

  -- Messages in which each group of calls is answered at once: each call by one result, in any
  -- order.
  pub data Conversation : List (ModelMessage Value) → Type 0 where
    finished : Conversation []
    system :
        (content : Text) {messages : List (ModelMessage Value)}
        → Conversation messages
        → Conversation (ModelMessage.system content ∷ messages)
    user :
        (content : Text) {messages : List (ModelMessage Value)}
        → Conversation messages
        → Conversation (ModelMessage.user content ∷ messages)
    group :
        {content : Option Text} {calls : List (ModelToolCall Value)}
        → IsProposal content calls
        → (results : List (Text × Text)) → Perm (map (λ r. r.0) results) (ids calls)
        → {messages : List (ModelMessage Value)} → Conversation messages
        → Conversation (ModelMessage.assistant content calls ∷ (results_of results ++ messages))

  -- What may follow while the calls in `pending` have no result.
  abbrev Answered : List Text → List (ModelMessage Value) → Type 0
  Answered pending messages =
      (results : List (Text × Text)) × (rest : List (ModelMessage Value)) × (messages
        ≡ results_of results ++ rest)
      × Perm (map (λ r. r.0) results) pending
      × Conversation rest

  validate_calls-ok :
      (seen : List Text) (calls : List (ModelToolCall Value))
      → validate_calls json seen calls ≡ ok tt
      → All IsCall calls × Distinct (ids calls) × Fresh seen (ids calls)
  unfolding validate_calls validate_name Distinct Fresh
  validate_calls-ok seen [] e = (tt, tt, tt)
  validate_calls-ok seen (call ∷ calls) e = ground (
    arith,
    validate_calls-ok (with_member call.id seen) calls,
    Fresh-with_member call.id seen (ids calls),
  )

  validate_calls_complete :
      (seen : List Text) (calls : List (ModelToolCall Value))
      → All IsCall calls × Distinct (ids calls) × Fresh seen (ids calls)
      → validate_calls json seen calls ≡ ok tt
  unfolding validate_calls validate_name Distinct Fresh
  validate_calls_complete seen [] h = refl
  validate_calls_complete seen (call ∷ calls) h = ground (
    arith,
    validate_calls_complete (with_member call.id seen) calls,
    Fresh-with_member call.id seen (ids calls),
  )

  pub validate_assistant_iff :
      (content : Option Text) (calls : List (ModelToolCall Value))
      → (validate_assistant json content calls ≡ ok tt) ↔ IsProposal content calls
  unfolding validate_assistant IsProposal
  validate_assistant_iff content calls = (
    λ e. ground (arith, validate_calls-ok [] calls),
    λ p. ground (arith, validate_calls_complete [] calls, Fresh-empty (ids calls)),
  )

  -- The ids of a group join the set, once each.
  extend_pending-Perm :
      (pending : List Text) (calls : List (ModelToolCall Value))
      → Distinct (ids calls)
      → Fresh pending (ids calls)
      → Perm (ids calls ++ pending) (extend_pending json pending calls)
  unfolding extend_pending Distinct Fresh
  extend_pending-Perm pending [] d f = Perm.refl pending
  extend_pending-Perm pending (call ∷ calls) (absent, d) (fresh, f) =
      let next = with_member-fresh call.id pending fresh in
      let rest =
        extend_pending-Perm (with_member call.id pending) calls d
          ((Fresh-with_member call.id pending (ids calls)).1 (absent, f)) in
      Perm.trans (Perm.symm (perm_middle {a = call.id} (ids calls) pending)) (
        subst (λ s. Perm (ids calls ++ s) (extend_pending json (with_member call.id pending) calls))
          next rest)

  Answered-none :
      (messages : List (ModelMessage Value)) → Answered [] messages → Conversation messages
  Answered-none messages ([], rest, e, p, c) = subst Conversation (sym e) c
  Answered-none messages (r ∷ results, rest, e, p, c) = absurd (cons≢nil (Perm.eq-nil p))

  is_empty→≡ : {xs : List Text} → is_empty xs ≡ true → xs ≡ []
  is_empty→≡ {xs = []} e = refl
  is_empty→≡ {xs = x ∷ xs} e = cc

  Answered-idle :
      (pending : List Text) (messages : List (ModelMessage Value))
      → is_empty pending ≡ true
      → Conversation messages
      → Answered pending messages
  Answered-idle pending messages e c =
      ([], messages, refl, subst (λ s. Perm [] s) (sym (is_empty→≡ e)) Perm.nil, c)

  -- With nothing pending, what follows is a conversation.
  idle_sound :
      (pending : List Text) (messages : List (ModelMessage Value))
      → is_empty pending ≡ true
      → Answered pending messages
      → Conversation messages
  idle_sound pending messages e a =
      Answered-none messages (subst (λ s. Answered s messages) (is_empty→≡ e) a)

  group_sound :
      (pending : List Text) (content : Option Text) (calls : List (ModelToolCall Value))
      (messages : List (ModelMessage Value))
      → is_empty pending ≡ true
      → IsProposal content calls
      → Answered (extend_pending json pending calls) messages
      → Conversation (ModelMessage.assistant content calls ∷ messages)
  unfolding IsProposal
  group_sound pending content calls messages e proposal (results, rest, same, p, c) =
      let joined : Perm (ids calls) (extend_pending json [] calls) =
        subst (λ s. Perm s (extend_pending json [] calls)) (append-nil (ids calls))
          (extend_pending-Perm [] calls proposal.2 (Fresh-empty (ids calls))) in
      let answered =
        subst (λ s. Perm (map (λ r. r.0) results) (extend_pending json s calls)) (is_empty→≡ e) p in
      subst (λ ms. Conversation (ModelMessage.assistant content calls ∷ ms)) (sym same)
        (Conversation.group proposal results (Perm.trans answered (Perm.symm joined)) c)

  validate_messages_from_sound :
      (index : ℕ) (pending : List Text) (messages : List (ModelMessage Value))
      → validate_messages_from json index pending messages ≡ ok tt
      → Answered pending messages
  unfolding validate_messages_from interrupts
  validate_messages_from_sound index pending [] e =
      Answered-idle pending [] (ground arith) Conversation.finished
  validate_messages_from_sound index pending (ModelMessage.tool id content ∷ messages) e =
      let member : contains id pending ≡ true = ground arith in
      let (results, rest, same, p, c) =
        validate_messages_from_sound (suc index) (without id pending) messages (ground arith) in
      (
        (id, content) ∷ results,
        rest,
        ap (λ ms. ModelMessage.tool id content ∷ ms) same,
        Perm.trans (Perm.cons id p) (Perm.symm (without-Perm id pending member)),
        c,
      )
  validate_messages_from_sound index pending (ModelMessage.assistant content calls ∷ messages) e =
      let idle : is_empty pending ≡ true = ground arith in
      Answered-idle pending (ModelMessage.assistant content calls ∷ messages) idle (
        group_sound pending content calls messages idle
          ((validate_assistant_iff content calls).0 (ground arith))
          (validate_messages_from_sound (suc index) (extend_pending json pending calls) messages
            (ground arith)))
  validate_messages_from_sound index pending (ModelMessage.system content ∷ messages) e =
      let idle : is_empty pending ≡ true = ground arith in
      Answered-idle pending (ModelMessage.system content ∷ messages) idle (
        Conversation.system content (
          idle_sound pending messages idle
            (validate_messages_from_sound (suc index) pending messages (ground arith))))
  validate_messages_from_sound index pending (ModelMessage.user content ∷ messages) e =
      let idle : is_empty pending ≡ true = ground arith in
      Answered-idle pending (ModelMessage.user content ∷ messages) idle (
        Conversation.user content (
          idle_sound pending messages idle
            (validate_messages_from_sound (suc index) pending messages (ground arith))))

  answer_complete :
      (index : ℕ) (pending : List Text) (results : List (Text × Text))
      (rest : List (ModelMessage Value))
      → Perm (map (λ r. r.0) results) pending
      → ((i : ℕ) → validate_messages_from json i [] rest ≡ ok tt)
      → validate_messages_from json index pending (results_of results ++ rest) ≡ ok tt
  unfolding validate_messages_from
  answer_complete index pending [] rest p accept =
      subst (λ s. validate_messages_from json index s rest ≡ ok tt) (Perm.nil-eq p) (accept index)
  answer_complete index pending ((id, content) ∷ results) rest p accept =
      let (member, others) = without-cons id (map (λ r. r.0) results) pending p in
      ground (arith, answer_complete (suc index) (without id pending) results rest others accept)

  validate_messages_from_complete :
      (messages : List (ModelMessage Value))
      → Conversation messages
      → (index : ℕ) → validate_messages_from json index [] messages ≡ ok tt
  unfolding validate_messages_from interrupts IsProposal
  validate_messages_from_complete ms Conversation.finished index = refl
  validate_messages_from_complete ms (Conversation.system content {messages} c) index =
      validate_messages_from_complete messages c (suc index)
  validate_messages_from_complete ms (Conversation.user content {messages} c) index =
      validate_messages_from_complete messages c (suc index)
  validate_messages_from_complete ms
        (Conversation.group {content} {calls} proposal results p {messages} c) index =
      let joined = extend_pending-Perm [] calls proposal.2 (Fresh-empty (ids calls)) in
      let matches : Perm (map (λ r. r.0) results) (extend_pending json [] calls) =
        Perm.trans p
          (subst (λ s. Perm s (extend_pending json [] calls)) (append-nil (ids calls)) joined) in
      ok->> (validate_assistant json content calls)
        (validate_messages_from json (suc index) (extend_pending json [] calls)
          (results_of results ++ messages))
        ((validate_assistant_iff content calls).1 proposal)
      ∙ answer_complete (suc index) (extend_pending json [] calls) results messages matches
          (validate_messages_from_complete messages c)

  -- The loop over the messages of a request accepts exactly the conversations in which each group
  -- of calls is well-formed and is answered at once, by one result for each call in any order.
  pub validate_messages_iff :
      (messages : List (ModelMessage Value))
      → (validate_messages json messages ≡ ok tt) ↔ ((messages ≢ []) × Conversation messages)
  unfolding validate_messages
  validate_messages_iff [] = ((λ e. cc), (λ (some_message, c). absurd (some_message refl)))
  validate_messages_iff (message ∷ messages) = (
    λ e. (
      cons≢nil,
      Answered-none (message ∷ messages) (validate_messages_from_sound 0 [] (message ∷ messages) e),
    ),
    λ (some_message, c). validate_messages_from_complete (message ∷ messages) c 0,
  )

  pub Conversation-append :
      (first second : List (ModelMessage Value))
      → Conversation first
      → Conversation second
      → Conversation (first ++ second)
  Conversation-append ms second Conversation.finished d = d
  Conversation-append ms second (Conversation.system content {messages} c) d =
      Conversation.system content (Conversation-append messages second c d)
  Conversation-append ms second (Conversation.user content {messages} c) d =
      Conversation.user content (Conversation-append messages second c d)
  Conversation-append ms second
        (Conversation.group {content} {calls} proposal results p {messages} c) d =
      subst (λ rest. Conversation (ModelMessage.assistant content calls ∷ rest))
        (sym (append_assoc (results_of results) messages second))
        (Conversation.group proposal results p (Conversation-append messages second c d))
