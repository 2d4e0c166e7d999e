-- ===== src/Budget/Ledger/Requests.antt =====
-- `fits`, `validate_request` and the map of pending reservations.
use jingwei.Base.{
  ℕ, Bool, true, false, ◌&&◌, ◌||◌, not, Option, none, some, List, [], ◌∷◌, ltb, leb, ◌==◌,
  if◌then◌else◌, any,
}
use jingwei.Base.Word.{checked_add}
use jingwei.Budget.Amounts.{Resource, all_resources, is_attempt, Amounts, get}
use jingwei.Budget.Vocabulary.{TokenMode, TokenEvidence, Request, Pending}
use jingwei.Budget.Ledger.{BudgetError}
use jingwei.Budget.Ledger.Action.{Outcome, ok, err}

-- `fits`: both sums must be words, and the last at most the limit.
unfoldable pub fits : ℕ → ℕ → ℕ → ℕ → Bool
fits charged reserved requested limit = elim (checked_add charged reserved) [
  | none ↦ false
  | some held ↦ elim (checked_add held requested) [ none ↦ false | some value ↦ leb value limit ]
]

-- The request consumes an attempt.
unfoldable pub has_attempt : Amounts → Bool
unfolding get
has_attempt amounts = any (λ r. is_attempt r && ltb 0 (get amounts r)) all_resources

abbrev is_verified : TokenEvidence → Bool
is_verified TokenEvidence.verified_upper_bound = true
is_verified TokenEvidence.estimate = false

-- One round of the loop of `validate_request`.
unfoldable pub check_evidence : Amounts → TokenMode → Resource → TokenEvidence → Outcome (Unit {0})
check_evidence amounts mode r evidence =
    if (ltb 0 amounts.model_requests || ltb 0 (get amounts r)) && not (is_verified evidence)
    then elim mode [
      | TokenMode.hard ↦ err (BudgetError.unverified_token_bound r)
      | TokenMode.soft ↦
          if get amounts r == 0 then err (BudgetError.zero_token_estimate r) else ok tt
    ]
    else ok tt

unfoldable pub validate_request : Request → TokenMode → Outcome (Unit {0})
unfolding has_attempt check_evidence
validate_request request mode =
    if not (has_attempt request.amounts)
    then err BudgetError.empty_request
    else elim (check_evidence request.amounts mode Resource.input_tokens request.input_tokens) [
      | ok _ ↦ check_evidence request.amounts mode Resource.output_tokens request.output_tokens
      | e ↦ e
    ]

-- `pending.get(&id)`.
unfoldable pub find_pending : ℕ → List Pending → Option Pending
find_pending id [] = none
find_pending id (p ∷ ps) = if p.id == id then some p else find_pending id ps

-- `pending.insert(p.id, p)`, in the order of the keys.
unfoldable pub insert_pending : Pending → List Pending → List Pending
insert_pending p [] = p ∷ []
insert_pending p (q ∷ qs) =
    if ltb p.id q.id then p ∷ q ∷ qs else if p.id == q.id then p ∷ qs else q ∷ insert_pending p qs

-- A write through `pending.get_mut(&id)`.
unfoldable pub update_pending : ℕ → (Pending → Pending) → List Pending → List Pending
update_pending id f [] = []
update_pending id f (p ∷ ps) = if p.id == id then f p ∷ ps else p ∷ update_pending id f ps

-- `pending.remove(&id)`.
unfoldable pub remove_pending : ℕ → List Pending → List Pending
remove_pending id [] = []
remove_pending id (p ∷ ps) = if p.id == id then ps else p ∷ remove_pending id ps
