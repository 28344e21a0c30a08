-- ===== src/Wallet/Withdrawals.antt =====
-- What `RecordWithdrawal` promises: the debit and the unlock together, and what a failure leaves.
use Prim.Native.String.{◌++◌}
use payflow_backend.Common.{
  ℕ, ◌≡◌, refl, sym, ◌∙◌, ap, ◌⊎◌, inl, inr, Bool, true, false, some, ◌∷◌, ◌&&◌, arith, subst,
  Bool-cases, true≢false,
}
use payflow_backend.Common.Int.{ℤ, ◌+ℤ◌, ◌-ℤ◌, ◌≤ℤ◌, leb_ℤ, ltb_ℤ, int_laws}
use payflow_backend.Common.Errors.{Error, Result, ok, err}
use payflow_backend.Wallet.Store.{
  Wallet, Wallets, written, set, in_column, at_least_zero, where_holds, find_by_business_id,
  decrement_balance_and_locked, has_reference, already_recorded,
}
use payflow_backend.Wallet.Updates.{
  is_stored, credited, some-inj, written-inj, find-cases, Refused, Wrote, exec-cases,
  increment_balance-again,
}
use payflow_backend.Wallet.Deposits.{CanUndo, Nothing, AreStored, create-cases, recorded}
use payflow_backend.Wallet.Service.{
  Store, OpFaults, Withdrawal, total_debit, withdrawal_row, settle_withdrawal, record_decremented,
  withdraw_from, record_withdrawal_op, ledger_withdrawal, ledger_fee,
}

-- The lock released by an amount, and never below zero.
abbrev pub released : ℤ → Wallet → Wallet
released a w = record w { locked_balance = at_least_zero (w.locked_balance -ℤ a) }

abbrev pub debited : (total a : ℤ) → Wallet → Wallet
debited total a w = record w {
  balance = w.balance -ℤ total;
  locked_balance = at_least_zero (w.locked_balance -ℤ a);
}

debit_and_credit : (a t : ℤ) → a -ℤ t +ℤ t ≡ a
debit_and_credit a t = omega int_laws

and-left : (c d : Bool) → (c && d) ≡ true → c ≡ true
and-left true d h = refl
and-left false d h = h

and-right : (c d : Bool) → (c && d) ≡ true → d ≡ true
and-right true d h = h
and-right false d h = absurd (true≢false (sym h))

both : {c d : Bool} → c ≡ true → d ≡ true → (c && d) ≡ true
both h k = rw h (rw k refl)

leb_ℤ→≤ℤ : (a b : ℤ) → leb_ℤ a b ≡ true → a ≤ℤ b
leb_ℤ→≤ℤ a b h = ground arith

module _ (f : OpFaults) (b : ℕ) (x : Withdrawal) (s : Store) where
  abbrev total : ℤ
  total = total_debit f b x

  -- The insert failed: an error, the balance restored, and the lock released all the same.
  abbrev pub Released : Result (Unit {0}) × Store → Type 0
  Released r =
      (w : Wallet) × (e : Error) × (s.wallets b ≡ some w)
      × (is_stored (released x.amount w) ≡ true)
      × (◌≡◌ {A = Result (Unit {0}) × Store} r
          (err e, record s { wallets = set b (released x.amount w) s.wallets }))

  -- The balance covered amount and fee; both are taken, the amount is unlocked, the row is in, and
  -- the ledger was told.
  abbrev pub Withdrawn : Result (Unit {0}) × Store → Type 0
  Withdrawn r =
      (w : Wallet) × (s.wallets b ≡ some w)
      × (total ≤ℤ w.balance)
      × (is_stored (debited total x.amount w) ≡ true)
      × (has_reference x.reference s.transactions ≡ false)
      × (◌≡◌ {A = Result (Unit {0}) × Store} r (
        ok tt,
        record {
          wallets = set b (debited total x.amount w) s.wallets;
          transactions = withdrawal_row f b x w.balance (debited total x.amount w) ∷ s.transactions;
          ledger =
              ledger_fee f b x.fee (x.reference ++ "-fee") x.fee_transaction_id
                (ledger_withdrawal f b x.amount x.reference x.transaction_id s.ledger);
        },
      ))

  module _ (undo : CanUndo f) where
    settle_withdrawal-cases :
        (w : Wallet)
        → s.wallets b ≡ some w
        → is_stored w ≡ true
        → total ≤ℤ w.balance
        → is_stored (debited total x.amount w) ≡ true
        → (let r : Result (Unit {0}) × Store =
              record_decremented f b x w.balance
                (ok (debited total x.amount w), set b (debited total x.amount w) s.wallets)
                s in
            Released r ⊎ Withdrawn r)
    unfolding record_decremented settle_withdrawal
    settle_withdrawal-cases w p k c k' =
        let w' = debited total x.amount w in
        elim (create-cases f.create_fails (withdrawal_row f b x w.balance w') s.transactions) [
          | inl (e, q) ↦ inl (
            w,
            e,
            p,
            released-stored w k k',
            rw q (
                rw
                  (increment_balance-again f.rollback b total (released x.amount w) w' s.wallets
                    undo.1 (released-stored w k k') (restored w))
                  refl),
          )
          | inr (h, q) ↦ inr (w, p, c, k', h, rw q refl)
        ]
      where
        restored : (w : Wallet) → credited total (debited total x.amount w) ≡ released x.amount w
        restored w =
            ap (λ z. record (released x.amount w) { balance = z })
              (debit_and_credit w.balance total)

        released-stored :
            (w : Wallet)
            → is_stored w ≡ true
            → is_stored (debited total x.amount w) ≡ true
            → is_stored (released x.amount w) ≡ true
        released-stored w k k' =
            both (and-left (in_column w.balance) (in_column w.locked_balance) k) (
              and-right (in_column (debited total x.amount w).balance)
                (in_column (debited total x.amount w).locked_balance) k')

    -- The WHERE clause of the update is the guard on the balance.
    decremented : (g : Bool) (w w' : Wallet) → where_holds g w' ≡ written w → (g ≡ true) × (w' ≡ w)
    decremented true w w' h = (refl, written-inj h)
    decremented false w w' h = absurd (cc)

    after_decrement :
        (r : Result Wallet × Wallets) (w : Wallet)
        → s.wallets b ≡ some w
        → is_stored w ≡ true
        → Refused r s.wallets
          ⊎ Wrote r b
              (λ v. where_holds (leb_ℤ total v.balance) (debited total x.amount v))
              s.wallets
        → (let t = record_decremented f b x w.balance r s in
            Nothing t s ⊎ (Released t ⊎ Withdrawn t))
    unfolding record_decremented
    after_decrement r w p k (inl (e, q)) = inl (e, rw q refl)
    after_decrement r w p k (inr (w', w'', p', g, k', q)) =
        let same_row : w ≡ w' = some-inj (sym p ∙ p') in
        let (c, row) = decremented (leb_ℤ total w'.balance) w'' (debited total x.amount w') g in
        let written_row : debited total x.amount w ≡ w'' =
          ap (λ v. debited total x.amount v) same_row ∙ row in
        rw q (
          inr (
            subst
              (λ v.
                let t = record_decremented f b x w.balance (ok v, set b v s.wallets) s in
                Released t ⊎ Withdrawn t)
              written_row
              (settle_withdrawal-cases w p k
                (leb_ℤ→≤ℤ total w.balance (ap (λ v. leb_ℤ total v.balance) same_row ∙ c))
                (ap is_stored written_row ∙ k'))))

    after_find :
        (o : Result Wallet)
        → ((e : Error) × (o ≡ err e)) ⊎ ((w : Wallet) × (s.wallets b ≡ some w) × (o ≡ ok w))
        → AreStored s.wallets
        → (let t = withdraw_from f b x o s in Nothing t s ⊎ (Released t ⊎ Withdrawn t))
    unfolding withdraw_from decrement_balance_and_locked
    after_find o (inl (e, q)) stored = inl (e, rw q refl)
    after_find o (inr (w, p, q)) stored = rw q (elim (Bool-cases (ltb_ℤ w.balance total)) [
      | inl h ↦ inl (Error.other, rw h refl)
      | inr h ↦ rw h (
          after_decrement (decrement_balance_and_locked f.update b total x.amount s.wallets) w p
            (stored b w p)
            (exec-cases f.update Error.other b
              (λ v. where_holds (leb_ℤ total v.balance) (debited total x.amount v)) s.wallets
              undo.0))
    ])

    -- `RecordWithdrawal`, when rows can be read back and the rollback is not refused, over stored
    -- wallets: the reference was recorded before and nothing changes; or it fails and nothing
    -- changes; or it fails, the balance is as it was, and the lock is released; or the balance covered
    -- amount and fee, both are taken, the amount is unlocked, and the row and the ledger have it.
    pub record_withdrawal_op-cases :
        AreStored s.wallets
        → (let t = record_withdrawal_op f b x s in
            ((◌≡◌ {A = Result (Unit {0}) × Store} t (ok tt, s))
              × (has_reference x.reference s.transactions ≡ true))
            ⊎ (Nothing t s ⊎ (Released t ⊎ Withdrawn t)))
    unfolding record_withdrawal_op
    record_withdrawal_op-cases stored =
        elim (Bool-cases (already_recorded f.lookup_fails x.reference s.transactions)) [
          | inl h ↦ inl (rw h refl, recorded f.lookup_fails x.reference s.transactions h)
          | inr h ↦ inr (
              rw h (
                after_find (find_by_business_id f.find_fails b s.wallets)
                  (find-cases f.find_fails b s.wallets) stored))
        ]
