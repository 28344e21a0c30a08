-- ===== src/Wallet/Reconciled.antt =====
-- The wallet's balance and the double-entry ledger agree over every history of service calls.
use Prim.Native.String.{String, ◌++◌}
use payflow_backend.Common.{
  ℕ, ◌≡◌, refl, sym, ◌∙◌, ap, inl, inr, Bool, true, false, some, List, [], ◌∷◌, ◌==◌, if◌then◌else◌,
  All,
}
use payflow_backend.Common.Int.{ℤ, pos, ◌+ℤ◌, ◌-ℤ◌, ◌≤ℤ◌, int_laws}
use payflow_backend.Common.Int64.{Fits, add64_exact}
use payflow_backend.Ledger.Laws.{wallet_net}
use payflow_backend.Wallet.Store.{Wallet, Faults, set}
use payflow_backend.Wallet.Updates.{is_stored, credited}
use payflow_backend.Wallet.Locks.{locked, lock_balance-cases, unlock_balance-cases}
use payflow_backend.Wallet.Deposits.{CanUndo, AreStored, AreStored-set, record_deposit_op-cases}
use payflow_backend.Wallet.Withdrawals.{released, debited, record_withdrawal_op-cases}
use payflow_backend.Wallet.Service.{
  Store, OpFaults, DepositNotification, Withdrawal, record_deposit_op, record_withdrawal_op,
  lock_balance, unlock_balance, ledger_withdrawal, ledger_fee, total_debit,
}
use payflow_backend.Wallet.Effects.{
  LedgerWorks, balance_of, IsReconciled, no_more, balance-set, wallet_net-ledger_deposit,
  wallet_net-ledger_withdrawal, wallet_net-ledger_fee,
}

-- One service call.
pub data Request : Type 0 where
  deposit : OpFaults → ℕ → DepositNotification → String → Request
  withdrawal : OpFaults → ℕ → Withdrawal → Request
  lock unlock : Faults → ℕ → ℤ → Request

unfoldable pub serve : Request → Store → Store
unfolding record_deposit_op record_withdrawal_op lock_balance unlock_balance
serve (Request.deposit f b n id) s = (record_deposit_op f b n id s).1
serve (Request.withdrawal f b x) s = (record_withdrawal_op f b x s).1
serve (Request.lock f b a) s = (lock_balance f b a s).1
serve (Request.unlock f b a) s = (unlock_balance f b a s).1

unfoldable pub serve_all : List Request → Store → Store
unfolding serve
serve_all [] s = s
serve_all (r ∷ rs) s = serve_all rs (serve r s)

-- Amounts and fees that are not negative and fit in 64 bits; rows can be read back, rollbacks and
-- ledger inserts are not refused. Any other database call may fail.
abbrev pub IsSound : Request → Type 0
IsSound (Request.deposit f b n id) = CanUndo f × LedgerWorks f × (pos 0 ≤ℤ n.amount) × Fits n.amount
IsSound (Request.withdrawal f b x) =
    CanUndo f × LedgerWorks f × (pos 0 ≤ℤ x.fee) × Fits (x.amount +ℤ x.fee)
IsSound (Request.lock f b a) = f.reread_fails ≡ false
IsSound (Request.unlock f b a) = f.reread_fails ≡ false

abbrev pub IsGood : Store → Type 0
IsGood s = AreStored s.wallets × IsReconciled s

module _ (b : ℕ) (w v : Wallet) (s s' : Store) where
  moved-IsGood :
      (d : ℤ)
      → s.wallets b ≡ some w
      → is_stored v ≡ true
      → v.balance ≡ w.balance +ℤ d
      → s'.wallets ≡ set b v s.wallets
      → ((b' : ℕ)
          → wallet_net b' s'.ledger ≡ wallet_net b' s.ledger +ℤ (if b == b' then d else pos 0))
      → IsGood s
      → IsGood s'
  moved-IsGood d p k q e l (stored, reconciled) = (
    rw e (AreStored-set b v s.wallets stored k),
    λ b'. rw e (rw (balance-set b b' w v s.wallets d p q) (rw (reconciled b') (sym (l b')))),
  )

  -- Only a lock moves.
  still-IsGood :
      s.wallets b ≡ some w
      → is_stored v ≡ true
      → v.balance ≡ w.balance
      → s'.wallets ≡ set b v s.wallets
      → s'.ledger ≡ s.ledger
      → IsGood s
      → IsGood s'
  still-IsGood p k q e l (stored, reconciled) = (
    rw e (AreStored-set b v s.wallets stored k),
    λ b'. rw e (rw l (balance-kept b' ∙ reconciled b')),
  )
    where
      balance-kept : (b' : ℕ) → balance_of (set b v s.wallets b') ≡ balance_of (s.wallets b')
      balance-kept b' =
          balance-set b b' w v s.wallets (pos 0) p (q ∙ no_more w.balance)
          ∙ nothing (balance_of (s.wallets b')) (b == b')
        where
          nothing : (x : ℤ) (c : Bool) → x +ℤ (if c then pos 0 else pos 0) ≡ x
          nothing x true = sym (no_more x)
          nothing x false = sym (no_more x)

serve_deposit-IsGood :
    (f : OpFaults) (b : ℕ) (n : DepositNotification) (id : String) (s : Store)
    → IsSound (Request.deposit f b n id)
    → IsGood s
    → IsGood (record_deposit_op f b n id s).1
serve_deposit-IsGood f b n id s (undo, works, nn, fits) good =
    elim (record_deposit_op-cases f b n id s undo nn fits good.0) [
      | inl (p, h) ↦ rw p good
      | inr (inl (e, p)) ↦ rw p good
      | inr (inr (w, p, k, h, q)) ↦
          moved-IsGood b w (credited n.amount w) s (record_deposit_op f b n id s).1 n.amount p k
            refl (ap (λ t. t.1.wallets) q)
            (λ b'. rw q (wallet_net-ledger_deposit f b n.amount n.reference id s.ledger b' works))
            good
    ]

two_debits :
    (x a c : ℤ) (same : Bool)
    → x +ℤ (if same then pos 0 -ℤ a else pos 0) +ℤ (if same then pos 0 -ℤ c else pos 0)
      ≡ x +ℤ (if same then pos 0 -ℤ (a +ℤ c) else pos 0)
two_debits x a c true = omega int_laws
two_debits x a c false = omega int_laws

debit_as_sum : (x t : ℤ) → x -ℤ t ≡ x +ℤ (pos 0 -ℤ t)
debit_as_sum x t = omega int_laws

serve_withdrawal-IsGood :
    (f : OpFaults) (b : ℕ) (x : Withdrawal) (s : Store)
    → IsSound (Request.withdrawal f b x)
    → IsGood s
    → IsGood (record_withdrawal_op f b x s).1
serve_withdrawal-IsGood f b x s (undo, works, nn, fits) good =
    elim (record_withdrawal_op-cases f b x s undo good.0) [
      | inl (p, h) ↦ rw p good
      | inr (inl (e, p)) ↦ rw p good
      | inr (inr (inl (w, e, p, k, q))) ↦
          still-IsGood b w (released x.amount w) s (record_withdrawal_op f b x s).1 p k refl
            (ap (λ t. t.1.wallets) q) (ap (λ t. t.1.ledger) q) good
      | inr (inr (inr (w, p, c, k, h, q))) ↦
          moved-IsGood b w (debited (total_debit f b x) x.amount w) s
            (record_withdrawal_op f b x s).1 (pos 0 -ℤ (x.amount +ℤ x.fee)) p k
            (rw (add64_exact x.amount x.fee fits) (debit_as_sum w.balance (x.amount +ℤ x.fee)))
            (ap (λ t. t.1.wallets) q) (λ b'. rw q (both b')) good
    ]
  where
    both :
        (b' : ℕ)
        → wallet_net b' (
            ledger_fee f b x.fee
              (x.reference ++ "-fee")
              x.fee_transaction_id
              (ledger_withdrawal f b x.amount x.reference x.transaction_id s.ledger))
          ≡ wallet_net b' s.ledger +ℤ (if b == b' then pos 0 -ℤ (x.amount +ℤ x.fee) else pos 0)
    both b' =
        let l = ledger_withdrawal f b x.amount x.reference x.transaction_id s.ledger in
        wallet_net-ledger_fee f b x.fee (x.reference ++ "-fee") x.fee_transaction_id l b' works nn
        ∙ rw
            (wallet_net-ledger_withdrawal f b x.amount x.reference x.transaction_id s.ledger b'
              works)
            (two_debits (wallet_net b' s.ledger) x.amount x.fee (b == b'))

serve_lock-IsGood :
    (f : Faults) (b : ℕ) (a : ℤ) (s : Store)
    → f.reread_fails ≡ false
    → IsGood s
    → IsGood (lock_balance f b a s).1
serve_lock-IsGood f b a s h good = elim (lock_balance-cases f b a s h) [
  | inl (e, p) ↦ rw p good
  | inr (w, p, c, k, q) ↦
      still-IsGood b w (locked a w) s (lock_balance f b a s).1 p k refl (ap (λ t. t.1.wallets) q)
        (ap (λ t. t.1.ledger) q) good
]

serve_unlock-IsGood :
    (f : Faults) (b : ℕ) (a : ℤ) (s : Store)
    → f.reread_fails ≡ false
    → IsGood s
    → IsGood (unlock_balance f b a s).1
serve_unlock-IsGood f b a s h good = elim (unlock_balance-cases f b a s h) [
  | inl (e, p) ↦ rw p good
  | inr (w, p, k, q) ↦
      still-IsGood b w _ s (unlock_balance f b a s).1 p k refl (ap (λ t. t.1.wallets) q)
        (ap (λ t. t.1.ledger) q) good
]

pub serve-IsGood : (r : Request) (s : Store) → IsSound r → IsGood s → IsGood (serve r s)
unfolding serve
serve-IsGood (Request.deposit f b n id) s sound good = serve_deposit-IsGood f b n id s sound good
serve-IsGood (Request.withdrawal f b x) s sound good = serve_withdrawal-IsGood f b x s sound good
serve-IsGood (Request.lock f b a) s sound good = serve_lock-IsGood f b a s sound good
serve-IsGood (Request.unlock f b a) s sound good = serve_unlock-IsGood f b a s sound good

-- From wallets of 64-bit values, not below zero, that agree with the ledger, over any history of deposits,
-- withdrawals, locks and unlocks where rows can be read back and rollbacks and ledger inserts are
-- not refused, with deposits that are not negative and fit in 64 bits and withdrawals whose fee
-- is not negative and whose total fits: every wallet keeps such values and its balance equals its
-- ledger balance, whichever other calls fail.
pub serve_all-IsGood :
    (rs : List Request) (s : Store) → All IsSound rs → IsGood s → IsGood (serve_all rs s)
unfolding serve_all
serve_all-IsGood [] s sound good = good
serve_all-IsGood (r ∷ rs) s sound good =
    serve_all-IsGood rs (serve r s) sound.1 (serve-IsGood r s sound.0 good)
