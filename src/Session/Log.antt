-- ===== src/Session/Log.antt =====
-- crates/session/session/src/lib.rs: `validate_physical_log`, and the logs that it accepts.
use jingwei.Base.{
  ℕ, suc, ◌-◌, ◌≡◌, refl, ◌↔◌, not, List, [], ◌∷◌, map, ◌==◌, ltb, if◌then◌else◌, arith,
}
use jingwei.Base.Result.{Result, ok, ◌>>◌, refuse_if}
use jingwei.Base.Sets.{contains, with_member, Distinct, Fresh, Fresh-with_member, Fresh-empty}
use jingwei.Base.Text.{Text, text_eq, text_eq→≡, text_eq_refl}
use jingwei.Base.Word.{u64_mod}
use jingwei.Core.Event.{SessionEvent}
use jingwei.Session.Vocabulary.{PhysicalLogError}

-- `u64::try_from(physical_index).unwrap_or(u64::MAX)`.
unfoldable pub expected_seq : ℕ → ℕ
expected_seq index = if ltb index u64_mod then index else u64_mod - 1

abbrev pub event_ids : {Value : Type 0} → List (SessionEvent Value) → List Text
event_ids = map (λ event. event.event_id)

module _ {Value : Type 0} (session_id : Text) where
  -- The loop, with the ids that it has seen.
  unfoldable pub validate_from :
      ℕ → List Text → List (SessionEvent Value) → Result PhysicalLogError (Unit {0})
  validate_from index event_ids [] = ok tt
  validate_from index event_ids (event ∷ events) =
      refuse_if (not (text_eq event.session_id session_id))
        (PhysicalLogError.wrong_session index session_id event.session_id)
      >> refuse_if (not (event.seq == expected_seq index))
          (PhysicalLogError.wrong_sequence index (expected_seq index) event.seq)
      >> refuse_if (contains event.event_id event_ids)
          (PhysicalLogError.duplicate_event_id index event.event_id)
      >> validate_from (suc index) (with_member event.event_id event_ids) events

  unfoldable pub validate_physical_log :
      List (SessionEvent Value) → Result PhysicalLogError (Unit {0})
  validate_physical_log events = validate_from 0 [] events

  -- Every event belongs to the session, and its sequence number is its index, capped at the largest
  -- `u64`.
  unfoldable pub IsPlaced : ℕ → List (SessionEvent Value) → Type 0
  IsPlaced index [] = Unit
  IsPlaced index (event ∷ events) =
      (event.session_id ≡ session_id)
      × (event.seq ≡ expected_seq index)
      × IsPlaced (suc index) events

  -- A log in order: events in their places, under different ids.
  unfoldable pub IsLog : List (SessionEvent Value) → Type 0
  IsLog events = IsPlaced 0 events × Distinct (event_ids events)

  validate_from_sound :
      (index : ℕ) (seen : List Text) (events : List (SessionEvent Value))
      → validate_from index seen events ≡ ok tt
      → IsPlaced index events × Distinct (event_ids events) × Fresh seen (event_ids events)
  unfolding validate_from IsPlaced Distinct Fresh
  validate_from_sound index seen [] e = (tt, tt, tt)
  validate_from_sound index seen (event ∷ events) e = ground (
    arith,
    text_eq→≡ event.session_id session_id,
    validate_from_sound (suc index) (with_member event.event_id seen) events,
    Fresh-with_member event.event_id seen (event_ids events),
  )

  validate_from_complete :
      (index : ℕ) (seen : List Text) (events : List (SessionEvent Value))
      → IsPlaced index events × Distinct (event_ids events) × Fresh seen (event_ids events)
      → validate_from index seen events ≡ ok tt
  unfolding validate_from IsPlaced Distinct Fresh
  validate_from_complete index seen [] h = refl
  validate_from_complete index seen (event ∷ events) h = ground (
    arith,
    text_eq_refl session_id,
    validate_from_complete (suc index) (with_member event.event_id seen) events,
    Fresh-with_member event.event_id seen (event_ids events),
  )

  -- The check accepts a log exactly when every event belongs to the session, its sequence number is
  -- its index, capped at the largest `u64`, and no two events share an id.
  pub validate_physical_log_iff :
      (events : List (SessionEvent Value)) → (validate_physical_log events ≡ ok tt) ↔ IsLog events
  unfolding validate_physical_log IsLog
  validate_physical_log_iff events = (
    λ e. let (placed, distinct, fresh) = validate_from_sound 0 [] events e in (placed, distinct),
    λ (placed, distinct).
        validate_from_complete 0 [] events (placed, distinct, Fresh-empty (event_ids events)),
  )
