-- ===== src/Core/Accumulator/Bounds.antt =====
-- crates/core/core/src/model.rs: what bounds the text that a `GenerationAccumulator` holds.
use jingwei.Base.{
  ℕ, ◌+◌, ◌≤◌, ◌<◌, ◌-◌, ◌≡◌, refl, ap, ◌∙◌, true, Option, some, List, [], ◌∷◌, ◌++◌, length, arith,
  Option-cases, Bool-cases, inl, inr,
}
use jingwei.Base.Text.{Text, byte_len, byte_len-append}
use jingwei.Base.Word.{u64_mod}
use jingwei.Core.Model.{ToolCallFragment, GenerationLimits, GenerationDelta, GenerationPartial}
use jingwei.Core.Response.{or_empty}
use jingwei.Core.Accumulator.{
  Accumulator, new_accumulator, added_bytes, push_content, extend_fragment, empty_fragment,
  has_index, update_at, push_fragment, push_partial, accepted, push, push_all,
}

abbrev pub fragment_bytes : ToolCallFragment → ℕ
fragment_bytes call = byte_len call.id + byte_len call.name + byte_len call.arguments

unfoldable pub fragments_bytes : List ToolCallFragment → ℕ
fragments_bytes [] = 0
fragments_bytes (call ∷ calls) = fragment_bytes call + fragments_bytes calls

-- The bytes of all text that is held.
unfoldable pub partial_bytes : GenerationPartial → ℕ
partial_bytes partial = byte_len (or_empty partial.content) + fragments_bytes partial.tool_calls

-- The counter is the size, and the size and the number of fragments are within the limits.
pub record IsBounded (acc : Accumulator) : Type 0 where
  pub counted : acc.bytes ≡ partial_bytes acc.partial
  pub size : acc.bytes ≤ acc.limits.max_output_bytes
  pub count : length acc.partial.tool_calls ≤ acc.limits.max_tool_calls

new_accumulator-IsBounded : (limits : GenerationLimits) → IsBounded (new_accumulator limits)
unfolding new_accumulator partial_bytes fragments_bytes byte_len or_empty
new_accumulator-IsBounded limits = record {
  counted = refl;
  size = omega arith;
  count = omega arith;
}

-- What a delta's strings add, with no carry out of the word.
delta_bytes : GenerationDelta → ℕ
delta_bytes (GenerationDelta.text text) = byte_len text
delta_bytes (GenerationDelta.tool_call index id name arguments) =
    byte_len (or_empty id) + byte_len (or_empty name) + byte_len arguments

added_bytes-exact :
    (delta : GenerationDelta)
    → added_bytes delta < u64_mod - 1
    → added_bytes delta ≡ delta_bytes delta
unfolding added_bytes delta_bytes
added_bytes-exact (GenerationDelta.text text) h = refl
added_bytes-exact (GenerationDelta.tool_call index id name arguments) h = omega arith

module _ (id name : Option Text) (arguments : Text) where
  abbrev added : ℕ
  added = byte_len (or_empty id) + byte_len (or_empty name) + byte_len arguments

  extend_fragment_bytes :
      (call : ToolCallFragment)
      → fragment_bytes (extend_fragment id name arguments call) ≡ fragment_bytes call + added
  unfolding extend_fragment
  extend_fragment_bytes call = omega (
    arith,
    byte_len-append call.id (or_empty id),
    byte_len-append call.name (or_empty name),
    byte_len-append call.arguments arguments,
  )

  update_at_bytes :
      (index : ℕ) (calls : List ToolCallFragment)
      → has_index index calls ≡ true
      → fragments_bytes (update_at index (extend_fragment id name arguments) calls)
        ≡ fragments_bytes calls + added
  unfolding has_index update_at fragments_bytes
  update_at_bytes index [] h = cc
  update_at_bytes index (call ∷ calls) h =
      ground (arith, extend_fragment_bytes call, update_at_bytes index calls)

  append_fragment_bytes :
      (index : ℕ) (calls : List ToolCallFragment)
      → fragments_bytes (calls ++ extend_fragment id name arguments (empty_fragment index) ∷ [])
        ≡ fragments_bytes calls + added
  unfolding fragments_bytes extend_fragment empty_fragment
  append_fragment_bytes index [] = omega arith
  append_fragment_bytes index (call ∷ calls) = omega (arith, append_fragment_bytes index calls)

length-update_at :
    (index : ℕ) (change : ToolCallFragment → ToolCallFragment) (calls : List ToolCallFragment)
    → length (update_at index change calls) ≡ length calls
unfolding update_at
length-update_at index change [] = refl
length-update_at index change (call ∷ calls) = ground (arith, length-update_at index change calls)

length-append_one :
    (calls : List ToolCallFragment) (call : ToolCallFragment)
    → length (calls ++ call ∷ []) ≡ length calls + 1
length-append_one [] call = refl
length-append_one (other ∷ calls) call = omega (arith, length-append_one calls call)

-- What a delta makes of the fragments: their bytes grow by the delta's, and their number stays
-- within the limit.
push_fragment-Bounds :
    (max_tool_calls index : ℕ) (id name : Option Text) (arguments : Text)
    (calls pushed : List ToolCallFragment)
    → push_fragment max_tool_calls index (extend_fragment id name arguments) calls ≡ some pushed
    → length calls ≤ max_tool_calls
    → (fragments_bytes pushed ≡ fragments_bytes calls + added id name arguments)
      × (length pushed ≤ max_tool_calls)
unfolding push_fragment
push_fragment-Bounds max_tool_calls index id name arguments calls pushed e h =
    elim (Bool-cases (has_index index calls)) [
      | inl present ↦ ground (
        arith,
        update_at_bytes id name arguments index calls present,
        length-update_at index (extend_fragment id name arguments) calls,
      )
      | inr absent ↦ ground (
        arith,
        append_fragment_bytes id name arguments index calls,
        length-append_one calls (extend_fragment id name arguments (empty_fragment index)),
      )
    ]

push_partial-Bounds :
    (max_tool_calls : ℕ) (partial pushed : GenerationPartial) (delta : GenerationDelta)
    → push_partial max_tool_calls partial delta ≡ some pushed
    → length partial.tool_calls ≤ max_tool_calls
    → (partial_bytes pushed ≡ partial_bytes partial + delta_bytes delta)
      × (length pushed.tool_calls ≤ max_tool_calls)
unfolding push_partial partial_bytes delta_bytes push_content or_empty
push_partial-Bounds most partial pushed (GenerationDelta.text text) e h =
    ground (arith, byte_len-append (or_empty partial.content) text)
push_partial-Bounds most partial pushed (GenerationDelta.tool_call index id name arguments) e h =
    elim (Option-cases
      (push_fragment most index (extend_fragment id name arguments) partial.tool_calls)) [
        | inl refused ↦ ground arith
        | inr (calls, kept) ↦ ground (
          arith,
          push_fragment-Bounds most index id name arguments partial.tool_calls calls kept h,
        )
      ]

accepted-IsBounded :
    (acc next : Accumulator) (delta : GenerationDelta)
    → acc.limits.max_output_bytes < u64_mod - 1
    → accepted acc delta ≡ some next
    → IsBounded acc
    → IsBounded next × (next.limits ≡ acc.limits)
unfolding accepted
accepted-IsBounded acc next delta small e bounded =
    elim (Option-cases (push_partial acc.limits.max_tool_calls acc.partial delta)) [
      | inl refused ↦ ground arith
      | inr (partial, kept) ↦ ground (
        arith,
        added_bytes-exact delta,
        bounded.counted,
        bounded.size,
        push_partial-Bounds acc.limits.max_tool_calls acc.partial partial delta kept bounded.count,
      )
    ]

push-IsBounded :
    (acc : Accumulator) (delta : GenerationDelta)
    → acc.limits.max_output_bytes < u64_mod - 1
    → IsBounded acc
    → IsBounded (push acc delta).0 × ((push acc delta).0.limits ≡ acc.limits)
unfolding push
push-IsBounded acc delta small bounded = elim (Option-cases (accepted acc delta)) [
  | inl refused ↦ ground arith
  | inr (next, kept) ↦ ground (arith, accepted-IsBounded acc next delta small kept bounded)
]

push_all-IsBounded_from :
    (acc : Accumulator) (deltas : List GenerationDelta)
    → acc.limits.max_output_bytes < u64_mod - 1
    → IsBounded acc
    → IsBounded (push_all acc deltas) × ((push_all acc deltas).limits ≡ acc.limits)
unfolding push_all
push_all-IsBounded_from acc [] small bounded = (bounded, refl)
push_all-IsBounded_from acc (delta ∷ deltas) small bounded =
    let (once, same) = push-IsBounded acc delta small bounded in
    let (all, kept) =
      push_all-IsBounded_from (push acc delta).0 deltas (by_limits same small) once in
    (all, kept ∙ same)
  where
    by_limits :
        {a b : GenerationLimits}
        → a ≡ b
        → b.max_output_bytes < u64_mod - 1
        → a.max_output_bytes < u64_mod - 1
    by_limits e h = omega (arith, ap (λ limits. limits.max_output_bytes) e)

-- Whatever the deltas of a stream, refused ones included, the accumulator holds at most as many
-- bytes of text and as many fragments as its limits allow, and counts the bytes exactly; for a limit
-- of bytes below the largest `usize`.
pub push_all-IsBounded :
    (limits : GenerationLimits) (deltas : List GenerationDelta)
    → limits.max_output_bytes < u64_mod - 1
    → let acc = push_all (new_accumulator limits) deltas in
      (acc.bytes ≡ partial_bytes acc.partial)
      × (partial_bytes acc.partial ≤ limits.max_output_bytes)
      × (length acc.partial.tool_calls ≤ limits.max_tool_calls)
unfolding new_accumulator
push_all-IsBounded limits deltas small =
    let (b, same) =
      push_all-IsBounded_from (new_accumulator limits) deltas small
        (new_accumulator-IsBounded limits) in
    ground (arith, b.counted, b.size, b.count, same)
