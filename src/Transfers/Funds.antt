-- ===== src/Transfers/Funds.antt =====
-- What `ExecuteTransfer` does to the wallet of the business.
use payflow_backend.Common.{
  arith, ℕ, ◌≡◌, refl, ap, ◌∙◌, ◌⊎◌, inl, inr, true, false, some, if-holds, if-true,
}
use payflow_backend.Common.Int.{ℤ, pos, ◌-ℤ◌, ◌≤ℤ◌}
use payflow_backend.Common.Errors.{Error, Result, ok, err}
use payflow_backend.Transfers.Types.{
  SingleTransferRequest, TransferResult, Transfer, SingleTransferResponse,
}
use payflow_backend.Transfers.Prepare.{ExecuteCalls, parse_amount_to_kobo, response_of}
use payflow_backend.Transfers.Service.{
  TransferService, TransferState, Outcome, is_ok, withdrawal_of, unlocked, with_lock, with_balance,
  with_amount, with_valid, prepared, execute_transfer,
}
use payflow_backend.Transfers.Effect.{is_settled, call_of, Effect, transferred-Effect}
use payflow_backend.Wallet.Store.{Wallet, set, has_reference}
use payflow_backend.Wallet.Service.{Store, Withdrawal, record_withdrawal_op, unlock_balance}
use payflow_backend.Wallet.Updates.{is_stored}
use payflow_backend.Wallet.Locks.{locked, Locked, lock_balance-cases, unlock_balance-undo}
use payflow_backend.Wallet.Deposits.{CanUndo, Nothing, AreStored, AreStored-set}
use payflow_backend.Wallet.Withdrawals.{Released, Withdrawn, record_withdrawal_op-cases}

-- The database works well enough: a taken lock is reported, an unlock goes through, and a failed
-- withdrawal is rolled back.
abbrev pub CanRestore : ExecuteCalls → Type 0
CanRestore calls =
    (calls.lock.reread_fails ≡ false)
    × (calls.unlock.update_fails ≡ false)
    × CanUndo calls.withdrawal

stored_lock-non_negative : (w : Wallet) → is_stored w ≡ true → pos 0 ≤ℤ w.locked_balance
stored_lock-non_negative w h = ground arith

abbrev pub lock_of : ℕ → ℤ → Wallet → Store → Store
lock_of b amount w s = record s { wallets = set b (locked amount w) s.wallets }

module _ {World : Type 0} (service : TransferService World) (calls : ExecuteCalls) (b : ℕ)
    (req : SingleTransferRequest) where
  -- What became of the call of `RecordWithdrawal` for the locked amount, which returned `r`: it took
  -- amount and fee off the balance; or it failed without an effect, and the lock was released; or
  -- the wallet had a row with this reference already, and the lock stays; or the row could not be
  -- inserted, and the lock is released twice.
  abbrev pub Recorded : ℤ → Withdrawal → (s s1 s' : Store) → Result (Unit {0}) × Store → Type 0
  Recorded amount y s s1 s' r =
      (Withdrawn calls.withdrawal b y s1 r × (s' ≡ r.1))
      ⊎ ((Nothing r s1 × (s' ≡ s))
          ⊎ (((◌≡◌ {A = Result (Unit {0}) × Store} r (ok tt, s1))
                × (has_reference req.reference s1.transactions ≡ true)
                × (s' ≡ s1))
              ⊎ (Released calls.withdrawal b y s1 r
                  × (s' ≡ (unlock_balance calls.unlock b amount r.1).1))))

  -- The wallet after a settled transfer: the amount of the request was available and was locked, and
  -- `RecordWithdrawal` was called with that amount, the fee of the provider's result that the
  -- response is made of, and the reference of the request.
  abbrev pub Settled : Store → SingleTransferResponse → Store → Type 0
  Settled s response s' =
      (amount : ℤ) × (w : Wallet) × (t : Transfer) × (x : TransferResult) × (parse_amount_to_kobo
          service.parsing req.amount
        ≡ ok amount)
      × (s.wallets b ≡ some w)
      × (amount ≤ℤ w.balance -ℤ w.locked_balance)
      × (response ≡ response_of t.id req.reference x)
      × (let y = withdrawal_of service calls b req amount t x in
          let s1 = lock_of b amount w s in
          Recorded amount y s s1 s' (record_withdrawal_op calls.withdrawal b y s1))

  -- What the whole function does to the wallets, the ledger and the wallet's transactions.
  abbrev pub Safe : Store → SingleTransferResponse × TransferState World → Type 0
  Safe s r =
      ((is_settled r.0 ≡ false) × (r.1.wallet ≡ s))
      ⊎ ((is_settled r.0 ≡ true) × Settled s r.0 r.1.wallet)

module _ {World : Type 0} (service : TransferService World) (calls : ExecuteCalls) (b : ℕ)
    (wallets_on : service.has_wallet_service ≡ true) (restores : CanRestore calls) where
  module _ (req : SingleTransferRequest) (amount : ℤ) (s : Store) (w : Wallet)
      (parsed : parse_amount_to_kobo service.parsing req.amount ≡ ok amount)
      (found : s.wallets b ≡ some w) (available : amount ≤ℤ w.balance -ℤ w.locked_balance)
      (stored : AreStored s.wallets) (stored_lock : is_stored (locked amount w) ≡ true) where
    undone : (unlock_balance calls.unlock b amount (lock_of b amount w s)).1 ≡ s
    undone =
        unlock_balance-undo calls.unlock b amount s w restores.1 found (stored b w found)
          (stored_lock-non_negative w (stored b w found))

    unlocked-response : (o : Outcome World) → (unlocked service calls b req amount o).0 ≡ o.response
    unfolding unlocked
    unlocked-response o =
        if-holds (λ (r : SingleTransferResponse × TransferState World). r.0 ≡ o.response)
          o.withdrawal_recorded (o.response, o.state) _ refl refl

    unlocked-recorded :
        (o : Outcome World)
        → o.withdrawal_recorded ≡ true
        → (unlocked service calls b req amount o).1.wallet ≡ o.state.wallet
    unfolding unlocked
    unlocked-recorded o h = rw h refl

    unlocked-released :
        (o : Outcome World)
        → o.withdrawal_recorded ≡ false
        → (unlocked service calls b req amount o).1.wallet
          ≡ (unlock_balance calls.unlock b amount o.state.wallet).1
    unfolding unlocked
    unlocked-released o h = rw h refl

    abbrev s1 : Store
    s1 = lock_of b amount w s

    abbrev unlock_of : Store → Store
    unlock_of s' = (unlock_balance calls.unlock b amount s').1

    settled :
        (o : Outcome World) (t : Transfer) (x : TransferResult)
        → (let r = call_of service calls b req amount wallets_on t x s1 in
            (o.state.wallet ≡ r.1)
            → (o.withdrawal_recorded ≡ is_ok r.0)
            → Recorded service calls b req amount
                (withdrawal_of service calls b req amount t x)
                s
                s1
                (unlocked service calls b req amount o).1.wallet
                r)
    settled o t x p q =
        elim (record_withdrawal_op-cases calls.withdrawal b
          (withdrawal_of service calls b req amount t x) s1 restores.2
          (AreStored-set b (locked amount w) s.wallets stored stored_lock)) [
            | inl (e, repeated) ↦ inr (
                inr (
                  inl (
                    e,
                    repeated,
                    unlocked-recorded o (q ∙ ap (λ d. is_ok d.0) e) ∙ p ∙ ap (λ d. d.1) e,
                  )))
            | inr (inl (e, eq)) ↦ inr (
                inl (
                  (e, eq),
                  unlocked-released o (q ∙ ap (λ d. is_ok d.0) eq)
                      ∙ ap unlock_of (p ∙ ap (λ d. d.1) eq)
                      ∙ undone,
                ))
            | inr (inr (inl (v, e, found', k, eq))) ↦ inr (
                inr (
                  inr (
                    (v, e, found', k, eq),
                    unlocked-released o (q ∙ ap (λ d. is_ok d.0) eq) ∙ ap unlock_of p,
                  )))
            | inr (inr (inr (v, found', c, k, n, eq))) ↦
                inl ((v, found', c, k, n, eq), unlocked-recorded o (q ∙ ap (λ d. is_ok d.0) eq) ∙ p)
          ]

    unlocked-Safe :
        (o : Outcome World)
        → Effect service calls b req amount wallets_on s1 o
        → Safe service calls b req s (unlocked service calls b req amount o)
    unlocked-Safe o (inl (q, same, none_recorded)) = inl (
      ap is_settled (unlocked-response o) ∙ q,
      unlocked-released o none_recorded ∙ ap unlock_of same ∙ undone,
    )
    unlocked-Safe o (inr (q, (t, x, answered, p, k))) = inr (
      ap is_settled (unlocked-response o) ∙ q,
      (
        amount,
        w,
        t,
        x,
        parsed,
        found,
        available,
        unlocked-response o ∙ answered,
        settled o t x p k,
      ),
    )

  with_lock-Safe :
      (req : SingleTransferRequest) (amount : ℤ) (st : TransferState World)
      (r : Result (Unit {0}) × Store)
      → parse_amount_to_kobo service.parsing req.amount ≡ ok amount
      → AreStored st.wallet.wallets
      → ((e : Error) × (◌≡◌ {A = Result (Unit {0}) × Store} r (err e, st.wallet)))
        ⊎ Locked r b amount st.wallet
      → Safe service calls b req st.wallet (with_lock service calls b req amount r st)
  unfolding with_lock
  with_lock-Safe req amount st r parsed stored (inl (e, q)) = rw q (inl (refl, refl))
  with_lock-Safe req amount st r parsed stored (inr (w, found, available, k, q)) = rw q (
      unlocked-Safe req amount st.wallet w parsed found available stored k _ (
        transferred-Effect service calls b req amount wallets_on
          (record st { wallet = lock_of b amount w st.wallet })))

  with_balance-Safe :
      (req : SingleTransferRequest) (amount : ℤ) (r : Result (Unit {0})) (st : TransferState World)
      → parse_amount_to_kobo service.parsing req.amount ≡ ok amount
      → AreStored st.wallet.wallets
      → Safe service calls b req st.wallet (with_balance service calls b req amount r st)
  unfolding with_balance
  with_balance-Safe req amount (err e) st parsed stored = inl (refl, refl)
  with_balance-Safe req amount (ok u) st parsed stored =
      with_lock-Safe req amount st _ parsed stored
        (lock_balance-cases calls.lock b amount st.wallet restores.0)

  with_amount-Safe :
      (req : SingleTransferRequest) (r : Result ℤ) (st : TransferState World)
      → parse_amount_to_kobo service.parsing req.amount ≡ r
      → AreStored st.wallet.wallets
      → Safe service calls b req st.wallet (with_amount service calls b req r st)
  unfolding with_amount
  with_amount-Safe req (err e) st parsed stored = inl (refl, refl)
  with_amount-Safe req (ok amount) st parsed stored =
      with_balance-Safe req amount _ st parsed stored

  with_valid-Safe :
      (req : SingleTransferRequest) (r : Result (Unit {0})) (st : TransferState World)
      → AreStored st.wallet.wallets
      → Safe service calls b req st.wallet (with_valid service calls b req r st)
  unfolding with_valid
  with_valid-Safe req (err e) st stored = inl (refl, refl)
  with_valid-Safe req (ok u) st stored =
      let amount = parse_amount_to_kobo service.parsing req.amount in
      if-true (Safe service calls b req st.wallet) service.has_wallet_service
        (with_amount service calls b req amount st) _ wallets_on
        (with_amount-Safe req amount st refl stored)

  -- `ExecuteTransfer` with a wallet service, over stored wallets, when a lock that is taken can be read
  -- back, unlocks go through and a failed withdrawal can be rolled back, whatever else fails. Unless
  -- the response is a success with the status "success", the wallets, their rows and the ledger are
  -- as they were. With that response the amount in the prepared request was available and was locked,
  -- `RecordWithdrawal` was called with that amount, the fee of the provider's result and the
  -- reference of the request, and what follows is what that call returned: it succeeded, amount and
  -- fee are off the balance, and the row and the ledger have them; or it failed without an effect,
  -- and the wallet is as before the transfer; or it found the reference recorded before, and the lock
  -- stays; or it failed to insert the row after it released the lock, and the lock is released twice.
  pub execute_transfer-Safe :
      (req : SingleTransferRequest) (st : TransferState World)
      → AreStored st.wallet.wallets
      → Safe service calls b
          (prepared service calls b req)
          st.wallet
          (execute_transfer service calls b req st)
  unfolding execute_transfer
  execute_transfer-Safe req st stored = with_valid-Safe (prepared service calls b req) _ st stored
