-- ===== src/Api/Status/Tail.antt =====
-- What the status shows of the error log, and when it shows a pending approval.
use stack_migrate.Base.{
  ℕ, zero, suc, ◌-◌, min, ◌≡◌, refl, ap, sym, ◌↔◌, Bool, true, false, List, [], ◌∷◌, ◌++◌, length,
  take, drop, Option, none, some, Text, arith,
}
use stack_migrate.State.{GraphState, PrDraft, LogEntry}
use stack_migrate.Api.Status.{PendingApproval, pending_of, state_to_status_response}

take-drop {ℓ} : {A : Type ℓ} (n : ℕ) (xs : List A) → take n xs ++ drop n xs ≡ xs
take-drop zero xs = refl
take-drop (suc n) [] = refl
take-drop (suc n) (x ∷ xs) = ap (λ ys. x ∷ ys) (take-drop n xs)

length-drop {ℓ} : {A : Type ℓ} (n : ℕ) (xs : List A) → length (drop n xs) ≡ length xs - n
length-drop zero xs = omega arith
length-drop (suc n) [] = omega arith
length-drop (suc n) (x ∷ xs) = omega (arith, length-drop n xs)

-- An approval is shown.
abbrev pub IsShown : Option PendingApproval → Type 0
IsShown o = (p : PendingApproval) × (o ≡ some p)

pending_iff :
    (waits : Bool) (paths : List Text) (o : Option PrDraft)
    → IsShown (pending_of waits paths o) ↔ ((waits ≡ true) × ((d : PrDraft) × (o ≡ some d)))
pending_iff true paths (some d) = (λ h. (refl, (d, refl)), λ h. (_, refl))
pending_iff true paths none = (λ h. absurd (cc h.1), λ h. absurd (cc h.1.1))
pending_iff false paths (some d) = (λ h. absurd (cc h.1), λ h. absurd (cc h.0))
pending_iff false paths none = (λ h. absurd (cc h.1), λ h. absurd (cc h.0))

-- The status ends with the last entries of the error log, in their order: twenty of them, or all if
-- there are fewer; and it shows a pending approval exactly when the run waits for one and has a draft.
pub state_to_status_response_shows :
    (run_id : Text) (s : GraphState) (waits : Bool)
    → let response = state_to_status_response run_id s waits in
      ((earlier : List LogEntry) × (s.error_log ≡ earlier ++ response.error_log_tail))
      × (length response.error_log_tail ≡ min 20 (length s.error_log))
      × (IsShown response.pending_approval
          ↔ ((waits ≡ true) × ((d : PrDraft) × (s.pr_draft ≡ some d))))
unfolding state_to_status_response
state_to_status_response_shows run_id s waits = (
  (
    take (length s.error_log - 20) s.error_log,
    sym (take-drop (length s.error_log - 20) s.error_log),
  ),
  omega (arith, length-drop (length s.error_log - 20) s.error_log),
  pending_iff waits s.aggregated_diff_paths s.pr_draft,
)
