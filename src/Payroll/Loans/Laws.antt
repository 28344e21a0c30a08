-- ===== src/Payroll/Loans/Laws.antt =====
-- Repayment moves money from what remains to what is repaid, and stops at zero.
use payflow_backend.Common.{
  ℕ, ◌≡◌, sym, subst, ◌∙◌, inl, inr, true, List, [], ◌∷◌, ◌&&◌, not, ◌==◌, if◌then◌else◌, if-holds,
  map, All, arith, Bool-cases,
}
use payflow_backend.Common.Int.{ℤ, pos, ◌+ℤ◌, ◌-ℤ◌, ◌≤ℤ◌, leb_ℤ, ltb_ℤ, int_laws}
use payflow_backend.Common.Int64.{add64, sub64, add64_exact, sub64_exact, Fits}
use payflow_backend.Payroll.Types.{Loan, LoanStatus}
use payflow_backend.Payroll.Loans.{
  LoanFaults, is_active, repay, repay_by, repay_row, repay_rows, update_loan_balances,
}

-- Of a completed loan nothing remains.
abbrev pub IsCleared : LoanStatus → ℤ → Type 0
IsCleared LoanStatus.completed m = m ≡ pos 0
IsCleared LoanStatus.active m = Unit
IsCleared LoanStatus.cancelled m = Unit

-- What was lent is what is repaid and what remains; nothing is negative, all fits in 64 bits, an
-- instalment is positive, and nothing remains of a completed loan.
abbrev pub IsSettled : Loan → Type 0
IsSettled loan =
    (pos 0 ≤ℤ loan.total_repaid)
    × (pos 0 ≤ℤ loan.remaining_balance)
    × (pos 1 ≤ℤ loan.monthly_deduction)
    × (loan.total_repaid +ℤ loan.remaining_balance ≡ loan.loan_amount)
    × Fits loan.loan_amount
    × IsCleared loan.status loan.remaining_balance

sum-Fits : (r m t : ℤ) → pos 0 ≤ℤ r → pos 0 ≤ℤ t → t ≤ℤ m → Fits (r +ℤ m) → Fits (r +ℤ t)
unfolding ◌+ℤ◌
sum-Fits r m t hr ht hm (f, f') = ground arith

rest-Fits : (r m t : ℤ) → pos 0 ≤ℤ r → pos 0 ≤ℤ t → t ≤ℤ m → Fits (r +ℤ m) → Fits (m -ℤ t)
unfolding ◌+ℤ◌ ◌-ℤ◌
rest-Fits r m t hr ht hm (f, f') = ground arith

-- The two sums of an instalment do not wrap.
instalment :
    (r m t : ℤ)
    → pos 0 ≤ℤ r
    → pos 0 ≤ℤ t
    → t ≤ℤ m
    → Fits (r +ℤ m)
    → (add64 r t ≡ r +ℤ t) × (sub64 m t ≡ m -ℤ t)
instalment r m t hr ht hm fits = (
  add64_exact r t (sum-Fits r m t hr ht hm fits),
  sub64_exact m t (rest-Fits r m t hr ht hm fits),
)

cleared :
    (s : LoanStatus) (m m' : ℤ)
    → pos 0 ≤ℤ m'
    → (m ≡ pos 0 → m' ≡ pos 0)
    → IsCleared s m
    → IsCleared (if leb_ℤ m' (pos 0) then LoanStatus.completed else s) m'
cleared s m m' h less k = elim (Bool-cases (leb_ℤ m' (pos 0))) [
  | inl q ↦ rw q (nothing_left m' h q)
  | inr q ↦ rw q (kept s k)
]
  where
    nothing_left : (m : ℤ) → pos 0 ≤ℤ m → leb_ℤ m (pos 0) ≡ true → m ≡ pos 0
    nothing_left m h q = ground arith

    kept : (s : LoanStatus) → IsCleared s m → IsCleared s m'
    kept LoanStatus.completed k = less k
    kept LoanStatus.active k = tt
    kept LoanStatus.cancelled k = tt

shifted : (r m t : ℤ) → r +ℤ t +ℤ (m -ℤ t) ≡ r +ℤ m
shifted r m t = omega int_laws

repay_by-IsSettled :
    (t : ℤ) (loan : Loan)
    → pos 0 ≤ℤ t
    → t ≤ℤ loan.remaining_balance
    → IsSettled loan
    → IsSettled (repay_by t loan)
unfolding repay_by
repay_by-IsSettled t loan ht hm (r, m, d, sum, fits, done) =
    let (a, s) = instalment loan.total_repaid loan.remaining_balance t r ht hm (rw sum fits) in
    (
      rw a (omega int_laws),
      rw s (omega int_laws),
      d,
      rw a (rw s (shifted loan.total_repaid loan.remaining_balance t ∙ sum)),
      fits,
      cleared loan.status loan.remaining_balance (sub64 loan.remaining_balance t)
          (rw s (omega int_laws)) (λ c. rw s (rest_zero loan.remaining_balance t ht hm c)) done,
    )
  where
    rest_zero : (m t : ℤ) → pos 0 ≤ℤ t → t ≤ℤ m → m ≡ pos 0 → m -ℤ t ≡ pos 0
    rest_zero m t ht hm e = subst (λ z. t ≤ℤ z → z -ℤ t ≡ pos 0) (sym e) (zero_less t ht) hm
      where
        zero_less : (t : ℤ) → pos 0 ≤ℤ t → t ≤ℤ pos 0 → pos 0 -ℤ t ≡ pos 0
        zero_less t h k = omega int_laws

capped_pos : (m d : ℤ) → pos 0 ≤ℤ m → pos 1 ≤ℤ d → pos 0 ≤ℤ (if ltb_ℤ m d then m else d)
capped_pos m d h k = ground arith

capped_le : (m d : ℤ) → (if ltb_ℤ m d then m else d) ≤ℤ m
capped_le m d = ground arith

pub repay-IsSettled : (loan : Loan) → IsSettled loan → IsSettled (repay loan)
unfolding repay
repay-IsSettled loan h =
    let (r, m, d, sum, fits, done) = h in
    if-holds IsSettled (leb_ℤ loan.remaining_balance (pos 0)) loan _ h (
      repay_by-IsSettled _ loan (capped_pos loan.remaining_balance loan.monthly_deduction m d)
        (capped_le loan.remaining_balance loan.monthly_deduction) h)

repay_row-IsSettled :
    (f : LoanFaults) (i : ℕ) (loan : Loan) → IsSettled loan → IsSettled (repay_row f i loan)
unfolding repay_row
repay_row-IsSettled f i loan h =
    if-holds IsSettled
      (loan.employee_id == i && is_active loan.status && not (f.save_fails loan.id)) (repay loan)
      loan (repay-IsSettled loan h) h

All-map :
    (f : LoanFaults) (i : ℕ) (loans : List Loan)
    → All IsSettled loans
    → All IsSettled (map (repay_row f i) loans)
All-map f i [] h = h
All-map f i (l ∷ ls) (h, hs) = (repay_row-IsSettled f i l h, All-map f i ls hs)

repay_rows-IsSettled :
    (f : LoanFaults) (i : ℕ) (loans : List Loan)
    → All IsSettled loans
    → All IsSettled (repay_rows f i loans)
unfolding repay_rows
repay_rows-IsSettled f i loans h =
    if-holds (All IsSettled) (f.load_fails i) loans (map (repay_row f i) loans) h
      (All-map f i loans h)

-- The repayments after a payroll run keep every loan settled, whichever employees were paid and
-- whichever queries and saves fail: repaid and remaining still sum to the loan and are not negative,
-- and nothing remains of a completed loan.
pub update_loan_balances-IsSettled :
    (f : LoanFaults) (is : List ℕ) (loans : List Loan)
    → All IsSettled loans
    → All IsSettled (update_loan_balances f is loans)
unfolding update_loan_balances
update_loan_balances-IsSettled f [] loans h = h
update_loan_balances-IsSettled f (i ∷ is) loans h =
    update_loan_balances-IsSettled f is (repay_rows f i loans) (repay_rows-IsSettled f i loans h)
