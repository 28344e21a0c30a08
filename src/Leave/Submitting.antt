-- ===== src/Leave/Submitting.antt =====
-- Submitting a leave request keeps the invariant.
use payflow_backend.Common.{
  ℕ, ◌<◌, ◌≡◌, refl, sym, ap, subst, ◌∙◌, inl, inr, Bool, false, some, List, [], ◌∷◌, ltb, All,
  All-append, arith, Bool-cases, ◌==◌, if-holds,
}
use payflow_backend.Common.Int.{ℤ, pos, negsuc, leb_ℤ, ltb_ℤ}
use payflow_backend.Common.Errors.{Error, Result, ok, err}
use payflow_backend.Leave.Store.{
  LeaveType, LeaveRequest, or_next, BalanceKey, LeaveBalance, LeaveTables, or_not_found,
  type_with_id, create_balance,
}
use payflow_backend.Leave.Service.{
  SubmitCalls, days_of, key_of, new_balance, submit_with, submit_first, submit_found, submit_days,
  submit_request,
}
use payflow_backend.Leave.Requests.{approved_days-append}
use payflow_backend.Leave.Balances.{All-create_balance, used_days-create}
use payflow_backend.Leave.Fair.{
  IsBalanced, AsksDays, IsEntitling, IsFair, Leaves, approved-pending, not_counted, found_row,
}
use payflow_backend.Leave.Keys.{some-inj}

module _ (year_of : ℕ → ℕ) where
  positive : (d : ℤ) → leb_ℤ d (pos 0) ≡ false → (n : ℕ) × (d ≡ pos n) × (0 < n)
  positive (pos n) h = (n, refl, ground arith)
  positive (negsuc n) h = absurd (ground arith)

  submit_with-IsFair :
      (fails : Bool) (req : LeaveRequest) (b : LeaveBalance) (s : LeaveTables)
      → AsksDays req
      → IsFair year_of s
      → Leaves year_of (submit_with year_of fails req b s)
  unfolding submit_with
  submit_with-IsFair fails req b s asks (balanced, asking, entitling, even) =
      let row : LeaveRequest = record req { id = s.next_id; status = "pending" } in
      let fair : IsFair year_of s = (balanced, asking, entitling, even) in
      if-holds (Leaves year_of) (ltb_ℤ b.remaining req.days) (err Error.validation_failed, s) _ fair
        (if-holds (Leaves year_of) fails (err Error.other, s) _ fair
          (
            balanced,
            All-append AsksDays s.requests (row ∷ []) asking (asks, tt),
            entitling,
            λ key.
                let nothing =
                  not_counted year_of key row "pending" refl (approved-pending year_of) in
                omega (
                  arith,
                  approved_days-append year_of key s.requests (row ∷ []),
                  nothing,
                  even key,
                ),
          ))

  new_balance-IsBalanced :
      (key : BalanceKey) (t : LeaveType) → IsEntitling t → IsBalanced (new_balance year_of key t)
  new_balance-IsBalanced key t (n, p, small) =
      (0, n, refl, p, p ∙ ap pos (omega arith), omega arith)

  typed :
      (id : ℕ) (t : LeaveType) (ts : List LeaveType)
      → All IsEntitling ts
      → type_with_id id ts ≡ some t
      → IsEntitling t
  unfolding type_with_id
  typed id t [] h k = absurd (cc)
  typed id t (u ∷ us) h k = elim (Bool-cases (u.id == id)) [
    | inl q ↦
        subst IsEntitling (some-inj (sym (ap (λ c. or_next c u (type_with_id id us)) q) ∙ k)) h.0
    | inr q ↦ typed id t us h.1 (sym (ap (λ c. or_next c u (type_with_id id us)) q) ∙ k)
  ]

  find_type :
      (fails : Bool) (id : ℕ) (t : LeaveType) (ts : List LeaveType)
      → All IsEntitling ts
      → or_not_found fails (type_with_id id ts) ≡ ok t
      → IsEntitling t
  find_type fails id t ts h k = typed id t ts h (found_row fails (type_with_id id ts) t k)

  submit_first-IsFair :
      (calls : SubmitCalls) (req : LeaveRequest) (r : Result LeaveType) (s : LeaveTables)
      → ((t : LeaveType) → r ≡ ok t → IsEntitling t)
      → AsksDays req
      → IsFair year_of s
      → Leaves year_of (submit_first year_of calls req r s)
  unfolding submit_first
  submit_first-IsFair calls req (err e) s found asks fair = fair
  submit_first-IsFair calls req (ok t) s found asks (balanced, asking, entitling, even) =
      let b = new_balance year_of (key_of year_of req) t in
      let bs = create_balance calls.create_balance_fails b s.balances in
      submit_with-IsFair calls.create_fails req b (record s { balances = bs }) asks
        (
          All-create_balance IsBalanced calls.create_balance_fails b s.balances balanced
              (new_balance-IsBalanced (key_of year_of req) t (found t refl)),
          asking,
          entitling,
          λ key. used_days-create key calls.create_balance_fails b s.balances refl ∙ even key,
        )

  submit_found-IsFair :
      (calls : SubmitCalls) (req : LeaveRequest) (r : Result LeaveBalance) (s : LeaveTables)
      → AsksDays req
      → IsFair year_of s
      → Leaves year_of (submit_found year_of calls req r s)
  unfolding submit_found
  submit_found-IsFair calls req (ok b) s asks fair =
      submit_with-IsFair calls.create_fails req b s asks fair
  submit_found-IsFair calls req (err e) s asks fair =
      submit_first-IsFair calls req _ s
        (λ t. find_type calls.type_fails req.leave_type_id t s.types fair.2) asks fair

  submit_days-IsFair :
      (calls : SubmitCalls) (req : LeaveRequest) (s : LeaveTables)
      → IsFair year_of s
      → Leaves year_of (submit_days year_of calls req s)
  unfolding submit_days
  submit_days-IsFair calls req s fair = elim (Bool-cases (leb_ℤ req.days (pos 0))) [
    | inl q ↦ rw q fair
    | inr q ↦ rw q (submit_found-IsFair calls req _ s (positive req.days q) fair)
  ]

  pub submit_request-IsFair :
      (calls : SubmitCalls) (req : LeaveRequest) (s : LeaveTables)
      → IsFair year_of s
      → Leaves year_of (submit_request year_of calls req s)
  unfolding submit_request
  submit_request-IsFair calls req s fair =
      if-holds (Leaves year_of) (ltb req.end_date req.start_date) (err Error.validation_failed, s) _
        fair (submit_days-IsFair calls (record req { days = days_of req }) s fair)
