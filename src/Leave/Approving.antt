-- ===== src/Leave/Approving.antt =====
-- Approving and rejecting a leave request keep the invariant.
use Prim.Native.String.{String}
use payflow_backend.Common.{
  ℕ, ◌+◌, ◌-◌, ◌≤◌, ◌≡◌, refl, sym, ap, ap₂, ◌∙◌, inl, inr, Bool, true, false, not, some,
  if◌then◌else◌, arith, Bool-cases, if-holds, true≢false,
}
use payflow_backend.Common.Int.{pos, pos_part, ltb_ℤ}
use payflow_backend.Common.Int64.{add64, sub64, add64-pos, sub64-pos}
use payflow_backend.Common.Errors.{Error, Result, ok, err}
use payflow_backend.Common.Texts.{same_text, same_text_iff}
use payflow_backend.Leave.Store.{
  LeaveRequest, BalanceKey, LeaveBalance, LeaveTables, same_key, request_with_id, balance_of,
  replace_request, replace_balance,
}
use payflow_backend.Leave.Service.{
  ApproveCalls, key_of, deducted, approved, approve_with, approve_balance, approve_found,
  approve_request, rejected, reject_found, reject_request,
}
use payflow_backend.Leave.Requests.{
  approved_days, approved_days-replace, request_with_id-id, All-request, All-replace_request,
}
use payflow_backend.Leave.Balances.{
  used_days, All-balance, All-replace_balance, balance_of-key, used_days-replace,
}
use payflow_backend.Leave.Fair.{
  IsBalanced, AsksDays, IsDeducted, IsFair, Leaves, approved-pending, approved-rejected,
  not_counted, counts, found_row,
}
use payflow_backend.Leave.Keys.{same_key→≡}

module _ (year_of : ℕ → ℕ) where
  not_more : (r d : ℕ) → ltb_ℤ (pos r) (pos d) ≡ false → d ≤ r
  not_more r d h = ground arith

  deducted-IsBalanced :
      (req : LeaveRequest) (b : LeaveBalance)
      → AsksDays req
      → IsBalanced b
      → ltb_ℤ b.remaining req.days ≡ false
      → IsBalanced (deducted year_of req b)
        × (pos_part (deducted year_of req b).used ≡ pos_part b.used + pos_part req.days)
  deducted-IsBalanced req b (d, p, least) (u, r, q, left, whole, small) h =
      let fits : d ≤ r = not_more r d (sym (ap₂ ltb_ℤ left p) ∙ h) in
      let used : add64 b.used req.days ≡ pos (u + d) =
        ap₂ add64 q p ∙ add64-pos u d (omega arith) in
      let remaining : sub64 b.entitled (add64 b.used req.days) ≡ pos (r - d) =
        ap₂ sub64 whole used
        ∙ sub64-pos (u + r) (u + d) (omega arith) (omega arith)
        ∙ ap pos (omega arith) in
      (
        (u + d, r - d, used, remaining, whole ∙ ap pos (omega arith), omega arith),
        ap pos_part used ∙ sym (ap₂ (λ m n. pos_part m + pos_part n) q p),
      )

  is_pending : (req : LeaveRequest) → same_text req.status "pending" ≡ true → req.status ≡ "pending"
  is_pending req h = (same_text_iff req.status "pending").0 h

  -- The balance of the request and the request move together.
  together :
      (id approver_id : ℕ) (req : LeaveRequest) (b : LeaveBalance) (s : LeaveTables)
      → request_with_id id s.requests ≡ some req
      → balance_of (key_of year_of req) s.balances ≡ some b
      → req.status ≡ "pending"
      → pos_part (deducted year_of req b).used ≡ pos_part b.used + pos_part req.days
      → IsDeducted year_of s
      → (key : BalanceKey)
      → used_days (balance_of key (replace_balance (deducted year_of req b) s.balances))
        ≡ approved_days year_of key (replace_request (approved year_of approver_id req) s.requests)
  together id approver_id req b s found_req found_b pending more even key =
      let b' = deducted year_of req b in
      let r' = approved year_of approver_id req in
      let keys : b.key ≡ key_of year_of req =
        balance_of-key (key_of year_of req) b s.balances found_b in
      let found = ap (λ k. balance_of k s.balances) keys ∙ found_b in
      let balances = used_days-replace key b b' s.balances found in
      let requests =
        approved_days-replace year_of key id req r' s.requests found_req
          (request_with_id-id id req s.requests found_req) in
      let nothing = not_counted year_of key req "pending" pending (approved-pending year_of) in
      elim (Bool-cases (same_key (key_of year_of req) key)) [
        | inl q ↦
            let here = ap (λ k. same_key k key) keys ∙ q in
            let new =
              balances
              ∙ ap (λ c. if c then pos_part b'.used else used_days (balance_of key s.balances))
                  here in
            let counted = counts year_of key r' true refl q in
            let old =
              ap (λ k. used_days (balance_of k s.balances))
                (sym (same_key→≡ (key_of year_of req) key q))
              ∙ ap used_days found_b in
            omega (arith, requests, nothing, new, counted, old, more, even key)
        | inr q ↦
            let elsewhere = ap (λ k. same_key k key) keys ∙ q in
            let new =
              balances
              ∙ ap (λ c. if c then pos_part b'.used else used_days (balance_of key s.balances))
                  elsewhere in
            let counted = counts year_of key r' false refl q in
            omega (arith, requests, nothing, new, counted, even key)
      ]

  approve_with-IsFair :
      (calls : ApproveCalls) (id approver_id : ℕ) (req : LeaveRequest) (b : LeaveBalance)
      (s : LeaveTables)
      → calls.deduct_fails ≡ false
      → request_with_id id s.requests ≡ some req
      → balance_of (key_of year_of req) s.balances ≡ some b
      → req.status ≡ "pending"
      → IsFair year_of s
      → Leaves year_of (approve_with year_of calls approver_id req b s)
  unfolding approve_with
  approve_with-IsFair calls id approver_id req b s works found_req found_b pending fair =
      let (balanced, asking, entitling, even) = fair in
      let asks = All-request AsksDays id req s.requests asking found_req in
      let whole = All-balance IsBalanced (key_of year_of req) b s.balances balanced found_b in
      elim (Bool-cases (ltb_ℤ b.remaining req.days)) [
        | inl q ↦ rw q fair
        | inr q ↦
            let (kept, more) = deducted-IsBalanced req b asks whole q in
            rw q (elim (Bool-cases calls.update_fails) [
              | inl k ↦ rw k fair
              | inr k ↦ rw k (
                  rw works (
                    All-replace_balance IsBalanced (deducted year_of req b) s.balances balanced
                        kept,
                    All-replace_request AsksDays (approved year_of approver_id req) s.requests
                        asking asks,
                    entitling,
                    together id approver_id req b s found_req found_b pending more even,
                  ))
            ])
      ]

  approve_balance-IsFair :
      (calls : ApproveCalls) (id approver_id : ℕ) (req : LeaveRequest) (r : Result LeaveBalance)
      (s : LeaveTables)
      → calls.deduct_fails ≡ false
      → request_with_id id s.requests ≡ some req
      → ((b : LeaveBalance) → r ≡ ok b → balance_of (key_of year_of req) s.balances ≡ some b)
      → req.status ≡ "pending"
      → IsFair year_of s
      → Leaves year_of (approve_balance year_of calls approver_id req r s)
  unfolding approve_balance
  approve_balance-IsFair calls id approver_id req (err e) s works found_req found pending fair =
      fair
  approve_balance-IsFair calls id approver_id req (ok b) s works found_req found pending fair =
      approve_with-IsFair calls id approver_id req b s works found_req (found b refl) pending fair

  pending_if :
      (req : LeaveRequest) → not (same_text req.status "pending") ≡ false → req.status ≡ "pending"
  pending_if req h = is_pending req (truth (same_text req.status "pending") h)
    where
      truth : (c : Bool) → not c ≡ false → c ≡ true
      truth true h = refl
      truth false h = absurd (true≢false h)

  approve_found-IsFair :
      (calls : ApproveCalls) (id approver_id : ℕ) (r : Result LeaveRequest) (s : LeaveTables)
      → calls.deduct_fails ≡ false
      → ((req : LeaveRequest) → r ≡ ok req → request_with_id id s.requests ≡ some req)
      → IsFair year_of s
      → Leaves year_of (approve_found year_of calls approver_id r s)
  unfolding approve_found
  approve_found-IsFair calls id approver_id (err e) s works found fair = fair
  approve_found-IsFair calls id approver_id (ok req) s works found fair =
      elim (Bool-cases (not (same_text req.status "pending"))) [
        | inl q ↦ rw q fair
        | inr q ↦ rw q (
            approve_balance-IsFair calls id approver_id req _ s works (found req refl)
              (λ b. found_row calls.balance_fails (balance_of (key_of year_of req) s.balances) b)
              (pending_if req q) fair)
      ]

  pub approve_request-IsFair :
      (calls : ApproveCalls) (id approver_id : ℕ) (s : LeaveTables)
      → calls.deduct_fails ≡ false
      → IsFair year_of s
      → Leaves year_of (approve_request year_of calls id approver_id s)
  unfolding approve_request
  approve_request-IsFair calls id approver_id s works fair =
      approve_found-IsFair calls id approver_id _ s works
        (λ req. found_row calls.request_fails (request_with_id id s.requests) req) fair

  reject_found-IsFair :
      (update_fails : Bool) (id approver_id : ℕ) (reason : String) (r : Result LeaveRequest)
      (s : LeaveTables)
      → ((req : LeaveRequest) → r ≡ ok req → request_with_id id s.requests ≡ some req)
      → IsFair year_of s
      → Leaves year_of (reject_found update_fails approver_id reason r s)
  unfolding reject_found
  reject_found-IsFair update_fails id approver_id reason (err e) s found fair = fair
  reject_found-IsFair update_fails id approver_id reason (ok req) s found fair =
      let (balanced, asking, entitling, even) = fair in
      let r' = rejected approver_id reason req in
      let found_req = found req refl in
      elim (Bool-cases (not (same_text req.status "pending"))) [
        | inl q ↦ rw q fair
        | inr q ↦ rw q (
            if-holds (Leaves year_of) update_fails (err Error.other, s) _ fair
              (
                balanced,
                All-replace_request AsksDays r' s.requests asking
                    (All-request AsksDays id req s.requests asking found_req),
                entitling,
                λ key.
                    let requests =
                      approved_days-replace year_of key id req r' s.requests found_req
                        (request_with_id-id id req s.requests found_req) in
                    let before =
                      not_counted year_of key req "pending" (pending_if req q)
                        (approved-pending year_of) in
                    let after =
                      not_counted year_of key r' "rejected" refl (approved-rejected year_of) in
                    omega (arith, requests, before, after, even key),
              ))
      ]

  pub reject_request-IsFair :
      (request_fails update_fails : Bool) (id approver_id : ℕ) (reason : String) (s : LeaveTables)
      → IsFair year_of s
      → Leaves year_of (reject_request request_fails update_fails id approver_id reason s)
  unfolding reject_request
  reject_request-IsFair request_fails update_fails id approver_id reason s fair =
      reject_found-IsFair update_fails id approver_id reason _ s
        (λ req. found_row request_fails (request_with_id id s.requests) req) fair
