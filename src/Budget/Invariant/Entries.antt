-- ===== src/Budget/Invariant/Entries.antt =====
-- The map of pending reservations: what each write does to the sums and to the ids.
use jingwei.Base.{
  ℕ, ◌+◌, ◌≤◌, ◌<◌, ◌≡◌, refl, Option, none, some, List, [], ◌∷◌, arith, inl, inr, All, Bool-cases,
  ◌==◌,
}
use jingwei.Budget.Amounts.{Resource, get}
use jingwei.Budget.Vocabulary.{Pending}
use jingwei.Budget.Ledger.{Inner, RunState, State}
use jingwei.Budget.Ledger.Requests.{find_pending, insert_pending, update_pending, remove_pending}
use jingwei.Budget.Invariant.{pending_sum, RunPart, Inv}

-- A new key adds its amounts.
pub pending_sum-insert :
    (r : Resource) (p : Pending) (n : ℕ) (ps : List Pending)
    → All (λ q. q.id ≤ n) ps
    → n < p.id
    → pending_sum r (insert_pending p ps) ≡ get p.request.amounts r + pending_sum r ps
unfolding insert_pending
pending_sum-insert r p n [] a h = refl
pending_sum-insert r p n (q ∷ qs) a h = ground (arith, pending_sum-insert r p n qs a.1 h)

pub ids-insert :
    (p : Pending) (n m : ℕ) (ps : List Pending)
    → All (λ q. q.id ≤ n) ps
    → n ≤ m
    → p.id ≤ m
    → All (λ q. q.id ≤ m) (insert_pending p ps)
unfolding insert_pending
ids-insert p n m [] a h k = (k, tt)
ids-insert p n m (q ∷ qs) a h k = ground (arith, ids-insert p n m qs a.1 h k, All-mono qs a.1)
  where
    All-mono : (xs : List Pending) → All (λ q. q.id ≤ n) xs → All (λ q. q.id ≤ m) xs
    All-mono [] b = tt
    All-mono (x ∷ xs) b = (omega arith, All-mono xs b.1)

-- A key that is present is taken out with its amounts.
pub pending_sum-remove :
    (r : Resource) (id : ℕ) (p : Pending) (ps : List Pending)
    → find_pending id ps ≡ some p
    → get p.request.amounts r + pending_sum r (remove_pending id ps) ≡ pending_sum r ps
unfolding find_pending remove_pending
pending_sum-remove r id p [] e = cc
pending_sum-remove r id p (q ∷ qs) e = ground (arith, pending_sum-remove r id p qs)

pub ids-remove :
    (n id : ℕ) (ps : List Pending)
    → All (λ q. q.id ≤ n) ps
    → All (λ q. q.id ≤ n) (remove_pending id ps)
unfolding remove_pending
ids-remove n id [] a = tt
ids-remove n id (q ∷ qs) a = ground (arith, ids-remove n id qs a.1)

-- A write to an entry's flags leaves its request and its key.
module _ (f : Pending → Pending)
    (same : (p : Pending) → ((f p).request ≡ p.request) × ((f p).id ≡ p.id)) where
  pub pending_sum-update :
      (r : Resource) (id : ℕ) (ps : List Pending)
      → pending_sum r (update_pending id f ps) ≡ pending_sum r ps
  unfolding update_pending
  pending_sum-update r id [] = refl
  pending_sum-update r id (p ∷ ps) = elim (Bool-cases (p.id == id)) [
    | inl hit ↦ rw (hit, (same p).0)
    | inr miss ↦ rw (miss, pending_sum-update r id ps)
  ]

  pub ids-update :
      (n id : ℕ) (ps : List Pending)
      → All (λ q. q.id ≤ n) ps
      → All (λ q. q.id ≤ n) (update_pending id f ps)
  unfolding update_pending
  ids-update n id [] a = tt
  ids-update n id (p ∷ ps) a = ground (arith, same p, ids-update n id ps a.1)

-- Pending entries may be replaced by others with the same sums.
pub Inv-pending :
    (inner : Inner) (s : State) (ps : List Pending)
    → ((r : Resource) → pending_sum r ps ≡ pending_sum r s.pending)
    → All (λ q. q.id ≤ s.next_id) ps
    → (s.pending ≡ [] → ps ≡ [])
    → Inv inner s
    → Inv inner (record s { pending = ps })
Inv-pending inner s ps same ids idle h = record {
  limits_word = h.limits_word;
  task = record {
    charged_word = h.task.charged_word;
    reserved_word = h.task.reserved_word;
    reserved_exact = λ r. ground (arith, same r, h.task.reserved_exact r);
    attempts_charged = λ r a. omega (arith, same r, h.task.attempts_charged r a);
    within_limits = h.task.within_limits;
    within_time = h.task.within_time;
    ids_below = ids;
    next_word = h.task.next_word;
  };
  run_part = part s.run h.run_part;
  evidence = h.evidence;
}
  where
    part :
        (run : Option RunState)
        → RunPart inner.limits s.charged s.reserved s.active_time s.cleanup_time s.stop s.pending
            s.next_id run
        → RunPart inner.limits s.charged s.reserved s.active_time s.cleanup_time s.stop ps s.next_id
            run
    part none k = idle k
    part (some run) k = record {
      run_reserved = k.run_reserved;
      run_charged = k.run_charged;
      run_attempts = λ r a. omega (arith, same r, k.run_attempts r a);
      run_limits = k.run_limits;
      run_within = k.run_within;
      run_time = k.run_time;
      run_active = k.run_active;
      run_cleanup = k.run_cleanup;
      run_id_below = k.run_id_below;
    }

-- A write to an entry's flags keeps the invariant.
pub Inv-update :
    (inner : Inner) (s : State) (id : ℕ) (f : Pending → Pending)
    → ((p : Pending) → ((f p).request ≡ p.request) × ((f p).id ≡ p.id))
    → Inv inner s
    → Inv inner (record s { pending = update_pending id f s.pending })
unfolding update_pending
Inv-update inner s id f same h =
    Inv-pending inner s (update_pending id f s.pending)
      (λ r. pending_sum-update f same r id s.pending)
      (ids-update f same s.next_id id s.pending h.task.ids_below) (λ e. rw e) h
