-- ===== src/Budget/Checkpoint/Grants.antt =====
-- crates/core/budget/src/grant.rs: the checks of one grant and of the audit of all.
use jingwei.Base.{
  ℕ, Bool, true, false, ◌&&◌, ◌||◌, not, Option, none, some, List, [], ◌∷◌, ltb, leb, ◌==◌, is_yes,
  is_some, is_empty, length, any, if◌then◌else◌,
}
use mathlib.Core.List.{reverse}
use jingwei.Base.Text.{Text, is_blank, byte_len, text_eq}
use jingwei.Budget.Amounts.{get, Limits, limits_eq, tightened_by}
use jingwei.Budget.Vocabulary.{StopReason, Report}
use jingwei.Budget.Audit.{EventCursor, EventCursor-discrete, GrantRequest, GrantRecord}
use jingwei.Budget.Checkpoint.{Version, Checkpoint, Checked, ok, ◌>>◌, refuse_if}

abbrev pub max_grants : ℕ
max_grants = 64

abbrev pub max_audit_text_bytes : ℕ
max_audit_text_bytes = 1024

unfoldable pub is_bad_audit_text : Text → Bool
unfolding is_blank byte_len
is_bad_audit_text text = is_blank text || ltb max_audit_text_bytes (byte_len text)

-- `validate_request_text`.
unfoldable pub validate_request_text : GrantRequest → Checked (Unit {0})
unfolding is_bad_audit_text
validate_request_text request =
    refuse_if
      (any is_bad_audit_text
        (request.operation_id ∷ request.actor ∷ request.source ∷ request.reason ∷ []))
      "empty or oversized audit text"

-- The match of `validate_increase` on the stop.
unfoldable pub clears_stop : Limits → Limits → Option StopReason → Bool
clears_stop old new none = true
clears_stop old new (some (StopReason.resource_limit r)) =
    ltb (get old.resources r) (get new.resources r)
clears_stop old new (some StopReason.active_time) = ltb old.active_time new.active_time
clears_stop old new (some _) = false

unfoldable pub validate_increase : Limits → Limits → Option StopReason → Checked (Unit {0})
unfolding clears_stop
validate_increase old new stop = do
  refuse_if (limits_eq old new || not (limits_eq (tightened_by new old) old))
      "grant must increase at least one limit and decrease none"
  refuse_if (not (clears_stop old new stop))
      "grant cannot clear this stop or does not increase the stopped resource"

-- `a != b` on cursors.
abbrev cursor_ne : EventCursor → EventCursor → Bool
cursor_ne a b = not (is_yes (EventCursor-discrete a b))

-- The cursor `a` stands after `b`, or beside it under another address.
unfoldable pub overtakes : EventCursor → EventCursor → Bool
overtakes a b = ltb b.seq a.seq || (a.seq == b.seq && cursor_ne a b)

-- The cursor `a` stands before `b`, or beside it under another address.
unfoldable pub falls_behind : EventCursor → EventCursor → Bool
falls_behind a b = ltb a.seq b.seq || (a.seq == b.seq && cursor_ne a b)

-- `tail.is_none_or(|tail| …)`.
abbrev none_or {ℓ} : {A : Type ℓ} → (A → Bool) → Option A → Bool
none_or p none = true
none_or p (some a) = p a

abbrev some_and {ℓ} : {A : Type ℓ} → (A → Bool) → Option A → Bool
some_and p none = false
some_and p (some a) = p a

-- The anchor check of one record against the image's anchor and the previous record's.
unfoldable pub check_anchor :
    Text → Option EventCursor → Option EventCursor → Option EventCursor → Checked (Unit {0})
unfolding overtakes falls_behind is_blank
check_anchor session tail previous (some anchor) =
    refuse_if
      (not (text_eq anchor.session_id session)
        || is_blank anchor.event_id
        || is_blank anchor.turn_id
        || none_or (overtakes anchor) tail
        || some_and (falls_behind anchor) previous)
      "invalid grant log anchor"
check_anchor session tail previous none =
    refuse_if (is_some previous) "grant log anchor moved backwards"

-- The loop of `validate_grants`, with the ids seen, the previous revision and anchor.
unfoldable pub check_records :
    Checkpoint → List Text → ℕ → Option EventCursor → List GrantRecord → Checked (Unit {0})
unfolding validate_request_text validate_increase check_anchor
check_records c seen previous_revision previous_anchor [] = ok tt
check_records c seen previous_revision previous_anchor (g ∷ rest) = do
  validate_request_text g.request
  validate_increase g.old_limits g.request.new_limits g.old_stop
  refuse_if
      (leb g.source_revision previous_revision
        || leb c.revision g.source_revision
        || any (text_eq g.request.operation_id) seen)
      "invalid grant revision or duplicate operation ID"
  check_anchor c.report.identity.session_id c.anchor previous_anchor g.confirmed_anchor
  check_records c (g.request.operation_id ∷ seen) g.source_revision g.confirmed_anchor rest

unfoldable pub anchor-discrete : Discrete (Option EventCursor)
anchor-discrete = hlevel EventCursor-discrete

abbrev pub anchor_eq : Option EventCursor → Option EventCursor → Bool
anchor_eq a b = is_yes (anchor-discrete a b)

-- The loop over `windows(2)`: grants at one boundary follow on from one another.
unfoldable pub check_chain : List GrantRecord → Checked (Unit {0})
check_chain [] = ok tt
check_chain (a ∷ []) = ok tt
check_chain (a ∷ b ∷ rest) = do
  refuse_if
      (anchor_eq a.confirmed_anchor b.confirmed_anchor
        && (not (limits_eq a.request.new_limits b.old_limits) || is_some b.old_stop))
      "discontinuous grants at the same boundary"
  check_chain (b ∷ rest)

abbrev takes_grants : Version → Bool
takes_grants Version.v3 = true
takes_grants Version.v4 = true
takes_grants _ = false

unfoldable pub validate_grants : Checkpoint → Checked (Unit {0})
unfolding check_records check_chain
validate_grants c = do
  refuse_if
      ((not (is_empty c.grants) && not (takes_grants c.version))
        || ltb max_grants (length c.grants))
      "invalid grant version or count"
  check_records c [] 0 none c.grants
  check_chain c.grants

-- The loop of `boundary_report`, over the grants from the last to the first.
unfoldable pub undo_grants : Option EventCursor → List GrantRecord → Report → Checked Report
undo_grants anchor [] report = ok report
undo_grants anchor (g ∷ gs) report =
    let rest : Report → Checked Report = undo_grants anchor gs in
    if anchor_eq g.confirmed_anchor anchor
    then (do
      refuse_if (not (limits_eq report.limits g.request.new_limits) || is_some report.stop)
          "grant chain differs from boundary limits/stop"
      rest (record report { limits = g.old_limits; stop = g.old_stop }))
    else ok report

-- `boundary_report`: the report before the grants at the image's own boundary.
unfoldable pub boundary_report : Checkpoint → Checked Report
unfolding undo_grants
boundary_report c = undo_grants c.anchor (reverse c.grants) c.report
