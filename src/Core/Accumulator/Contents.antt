-- ===== src/Core/Accumulator/Contents.antt =====
-- crates/core/core/src/model.rs: what a `GenerationAccumulator` holds after a stream, and that it
-- does not depend on how the stream cuts its text.
use jingwei.Base.{
  ℕ, ◌==◌, ◌≡◌, refl, ap, ◌∙◌, Bool, true, false, Option, none, some, List, [], ◌∷◌, ◌++◌, arith,
  Option-cases, Bool-cases, if◌then◌else◌, inl, inr,
}
use mathlib.Core.List.{append_assoc, append-nil}
use jingwei.Base.Text.{Text}
use jingwei.Core.Model.{ToolCallFragment, GenerationDelta, GenerationLimits, GenerationPartial}
use jingwei.Core.Response.{or_empty}
use jingwei.Core.Accumulator.{
  Accumulator, new_accumulator, push_content, extend_fragment, empty_fragment, has_index, update_at,
  push_fragment, push_partial, accepted,
}

-- The accumulator after deltas none of which is refused.
unfoldable pub accept_all : Accumulator → List GenerationDelta → Option Accumulator
accept_all acc [] = some acc
accept_all acc (delta ∷ deltas) = elim (accepted acc delta) [
  | none ↦ none
  | some next ↦ accept_all next deltas
]

-- The fragment with an index, or the empty one.
unfoldable pub fragment_of : ℕ → List ToolCallFragment → ToolCallFragment
fragment_of index [] = empty_fragment index
fragment_of index (call ∷ calls) = if call.index == index then call else fragment_of index calls

-- The text of a delta, and what it says of the call with an index.
unfoldable pub text_of : GenerationDelta → Text
text_of (GenerationDelta.text text) = text
text_of (GenerationDelta.tool_call _ _ _ _) = []

abbrev pub about : ℕ → (Option Text → Option Text → Text → Text) → GenerationDelta → Text
about index part (GenerationDelta.text text) = []
about index part (GenerationDelta.tool_call i id name arguments) =
    if i == index then part id name arguments else []

unfoldable pub id_of : ℕ → GenerationDelta → Text
id_of index = about index (λ id name arguments. or_empty id)

unfoldable pub name_of : ℕ → GenerationDelta → Text
name_of index = about index (λ id name arguments. or_empty name)

unfoldable pub arguments_of : ℕ → GenerationDelta → Text
arguments_of index = about index (λ id name arguments. arguments)

-- The pieces of a stream, in their order.
unfoldable pub joined : (GenerationDelta → Text) → List GenerationDelta → Text
joined part [] = []
joined part (delta ∷ deltas) = part delta ++ joined part deltas

-- The contents of an accumulator: its text, and for each index the fragment.
abbrev pub content_of : Accumulator → Text
content_of acc = or_empty acc.partial.content

abbrev pub call_of : ℕ → Accumulator → ToolCallFragment
call_of index acc = fragment_of index acc.partial.tool_calls

extended : ℕ → GenerationDelta → ToolCallFragment → ToolCallFragment
extended index delta call = record call {
  id = call.id ++ id_of index delta;
  name = call.name ++ name_of index delta;
  arguments = call.arguments ++ arguments_of index delta;
}

fragment_of-update_at :
    (index i : ℕ) (change : ToolCallFragment → ToolCallFragment) (calls : List ToolCallFragment)
    → ((call : ToolCallFragment) → (change call).index ≡ call.index)
    → has_index i calls ≡ true
    → fragment_of index (update_at i change calls)
      ≡ (if i == index then change (fragment_of index calls) else fragment_of index calls)
unfolding fragment_of update_at has_index
fragment_of-update_at index i change [] keep h = cc
fragment_of-update_at index i change (call ∷ calls) keep h =
    ground (arith, keep call, fragment_of-update_at index i change calls keep)

fragment_of-append :
    (index i : ℕ) (change : ToolCallFragment → ToolCallFragment) (calls : List ToolCallFragment)
    → ((call : ToolCallFragment) → (change call).index ≡ call.index)
    → has_index i calls ≡ false
    → fragment_of index (calls ++ change (empty_fragment i) ∷ [])
      ≡ (if i == index then change (fragment_of index calls) else fragment_of index calls)
unfolding fragment_of has_index empty_fragment
fragment_of-append index i change [] keep h = ground (arith, keep (empty_fragment i))
fragment_of-append index i change (call ∷ calls) keep h =
    ground (arith, fragment_of-append index i change calls keep)

extend_fragment-index :
    (id name : Option Text) (arguments : Text) (call : ToolCallFragment)
    → (extend_fragment id name arguments call).index ≡ call.index
unfolding extend_fragment
extend_fragment-index id name arguments call = refl

fragment_of-push :
    (most index i : ℕ) (id name : Option Text) (arguments : Text)
    (calls pushed : List ToolCallFragment)
    → push_fragment most i (extend_fragment id name arguments) calls ≡ some pushed
    → fragment_of index pushed ≡ (
        if i == index
        then extend_fragment id name arguments (fragment_of index calls)
        else fragment_of index calls)
unfolding push_fragment
fragment_of-push most index i id name arguments calls pushed e =
    elim (Bool-cases (has_index i calls)) [
      | inl present ↦ ground (
        arith,
        fragment_of-update_at index i (extend_fragment id name arguments) calls
            (extend_fragment-index id name arguments) present,
      )
      | inr absent ↦ ground (
        arith,
        fragment_of-append index i (extend_fragment id name arguments) calls
            (extend_fragment-index id name arguments) absent,
      )
    ]

record_eq :
    {a b : ToolCallFragment}
    → a.index ≡ b.index
    → a.id ≡ b.id
    → a.name ≡ b.name
    → a.arguments ≡ b.arguments
    → a ≡ b
record_eq p q r s = λ i. record { index = p i; id = q i; name = r i; arguments = s i }

-- A call that a delta says nothing about keeps its parts.
extended-none :
    (index : ℕ) (delta : GenerationDelta) (call : ToolCallFragment)
    → id_of index delta ≡ []
    → name_of index delta ≡ []
    → arguments_of index delta ≡ []
    → extended index delta call ≡ call
unfolding extended
extended-none index delta call p q r =
    record_eq refl (ap (λ part. call.id ++ part) p ∙ append-nil call.id)
      (ap (λ part. call.name ++ part) q ∙ append-nil call.name)
      (ap (λ part. call.arguments ++ part) r ∙ append-nil call.arguments)

extended-text :
    (index : ℕ) (text : Text) (call : ToolCallFragment)
    → extended index (GenerationDelta.text text) call ≡ call
unfolding id_of name_of arguments_of
extended-text index text call = extended-none index (GenerationDelta.text text) call refl refl refl

extended-tool_call :
    (index i : ℕ) (id name : Option Text) (arguments : Text) (call : ToolCallFragment)
    → extended index (GenerationDelta.tool_call i id name arguments) call
      ≡ (if i == index then extend_fragment id name arguments call else call)
unfolding extended id_of name_of arguments_of extend_fragment
extended-tool_call index i id name arguments call = go (i == index)
  where
    go :
        (same : Bool)
        → ◌≡◌ {A = ToolCallFragment}
            (record call {
              id = call.id ++ (if same then or_empty id else []);
              name = call.name ++ (if same then or_empty name else []);
              arguments = call.arguments ++ (if same then arguments else []);
            })
            (if same
              then record call {
                id = call.id ++ or_empty id;
                name = call.name ++ or_empty name;
                arguments = call.arguments ++ arguments;
              }
              else call)
    go true = refl
    go false =
        record_eq refl (append-nil call.id) (append-nil call.name) (append-nil call.arguments)

-- One delta that goes through adds its piece at the end of the text and of its call.
push_partial-contents :
    (most index : ℕ) (partial pushed : GenerationPartial) (delta : GenerationDelta)
    → push_partial most partial delta ≡ some pushed
    → (or_empty pushed.content ≡ or_empty partial.content ++ text_of delta)
      × (fragment_of index pushed.tool_calls
          ≡ extended index delta (fragment_of index partial.tool_calls))
unfolding push_partial push_content or_empty text_of
push_partial-contents most index partial pushed (GenerationDelta.text text) e =
    ground (arith, extended-text index text (fragment_of index partial.tool_calls))
push_partial-contents most index partial pushed (GenerationDelta.tool_call i id name arguments) e =
    elim (Option-cases
      (push_fragment most i (extend_fragment id name arguments) partial.tool_calls)) [
        | inl refused ↦ ground arith
        | inr (calls, kept) ↦ ground (
          arith,
          append-nil (or_empty partial.content),
          fragment_of-push most index i id name arguments partial.tool_calls calls kept,
          extended-tool_call index i id name arguments (fragment_of index partial.tool_calls),
        )
      ]

accepted-contents :
    (index : ℕ) (acc next : Accumulator) (delta : GenerationDelta)
    → accepted acc delta ≡ some next
    → (content_of next ≡ content_of acc ++ text_of delta)
      × (call_of index next ≡ extended index delta (call_of index acc))
unfolding accepted
accepted-contents index acc next delta e =
    elim (Option-cases (push_partial acc.limits.max_tool_calls acc.partial delta)) [
      | inl refused ↦ ground arith
      | inr (partial, kept) ↦ ground (
        arith,
        push_partial-contents acc.limits.max_tool_calls index acc.partial partial delta kept,
      )
    ]

-- What a stream adds to an accumulator.
abbrev Adds : ℕ → List GenerationDelta → Accumulator → Accumulator → Type 0
Adds index deltas acc last =
    (content_of last ≡ content_of acc ++ joined text_of deltas)
    × ((call_of index last).id ≡ (call_of index acc).id ++ joined (id_of index) deltas)
    × ((call_of index last).name ≡ (call_of index acc).name ++ joined (name_of index) deltas)
    × ((call_of index last).arguments
        ≡ (call_of index acc).arguments ++ joined (arguments_of index) deltas)

-- Two pieces in sequence.
step_piece : (a : Text) {b c : Text} (x y : Text) → b ≡ a ++ x → c ≡ b ++ y → c ≡ a ++ (x ++ y)
step_piece a x y p q = q ∙ ap (λ t. t ++ y) p ∙ append_assoc a x y

accept_all-Adds :
    (index : ℕ) (deltas : List GenerationDelta) (acc last : Accumulator)
    → accept_all acc deltas ≡ some last
    → Adds index deltas acc last
unfolding accept_all joined extended
accept_all-Adds index [] acc last e = ground (
  arith,
  append-nil (content_of acc),
  append-nil (call_of index acc).id,
  append-nil (call_of index acc).name,
  append-nil (call_of index acc).arguments,
)
accept_all-Adds index (delta ∷ deltas) acc last e = elim (Option-cases (accepted acc delta)) [
  | inl refused ↦ ground arith
  | inr (next, kept) ↦
      let (text, call) = accepted-contents index acc next delta kept in
      let (texts, ids, names, arguments) = accept_all-Adds index deltas next last (ground arith) in
      (
        step_piece (content_of acc) (text_of delta) (joined text_of deltas) text texts,
        step_piece (call_of index acc).id (id_of index delta) (joined (id_of index) deltas)
            (ap (λ c. c.id) call) ids,
        step_piece (call_of index acc).name (name_of index delta) (joined (name_of index) deltas)
            (ap (λ c. c.name) call) names,
        step_piece (call_of index acc).arguments (arguments_of index delta)
            (joined (arguments_of index) deltas) (ap (λ c. c.arguments) call) arguments,
      )
]

-- A stream of which no delta is refused leaves the text as the pieces of text in their order, and
-- the id, name and arguments of the call with an index as the pieces for that index in their order,
-- wherever the stream was cut and however the calls were interleaved.
pub accept_all-pieces :
    (limits : GenerationLimits) (deltas : List GenerationDelta) (last : Accumulator) (index : ℕ)
    → accept_all (new_accumulator limits) deltas ≡ some last
    → (content_of last ≡ joined text_of deltas)
      × ((call_of index last).id ≡ joined (id_of index) deltas)
      × ((call_of index last).name ≡ joined (name_of index) deltas)
      × ((call_of index last).arguments ≡ joined (arguments_of index) deltas)
unfolding new_accumulator or_empty fragment_of empty_fragment
accept_all-pieces limits deltas last index e =
    accept_all-Adds index deltas (new_accumulator limits) last e
