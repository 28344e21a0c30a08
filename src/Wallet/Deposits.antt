-- ===== src/Wallet/Deposits.antt =====
-- What `RecordDeposit` promises: all or nothing, and once for each reference.
use Prim.Native.String.{String}
use payflow_backend.Common.{
  ℕ, ◌≡◌, refl, sym, ◌∙◌, ap, ◌⊎◌, inl, inr, Bool, true, false, some, List, ◌∷◌, ◌==◌, subst,
  Bool-cases, true≢false,
}
use payflow_backend.Common.Int.{pos, ◌+ℤ◌, ◌≤ℤ◌}
use payflow_backend.Common.Int64.{neg64, Fits}
use payflow_backend.Common.Errors.{Error, Result, ok, err}
use payflow_backend.Wallet.Store.{
  Wallet, Wallets, WalletTransaction, written, set, find_by_business_id, increment_balance,
  has_reference, already_recorded, create,
}
use payflow_backend.Wallet.Updates.{
  is_stored, credited, some-inj, written-inj, find-cases, Refused, Wrote, exec-cases, neg64-undo,
  increment_balance-rollback,
}
use payflow_backend.Wallet.Service.{
  Store, DepositNotification, OpFaults, create_twice, deposit_row, settle_deposit,
  record_incremented, deposit_into, record_deposit_op, ledger_deposit,
}

-- A recorded reference: a second call with it, whose lookup works, changes nothing.
pub repeated_deposit :
    (f : OpFaults) (b : ℕ) (n : DepositNotification) (id : String) (s : Store)
    → f.lookup_fails ≡ false
    → has_reference n.reference s.transactions ≡ true
    → ◌≡◌ {A = Result (Unit {0}) × Store} (record_deposit_op f b n id s) (ok tt, s)
unfolding record_deposit_op
repeated_deposit f b n id s lookup recorded = rw lookup (rw recorded refl)

-- The insert of a reference that the table has fails and leaves the table.
create-duplicate :
    (fails : Bool) (t : WalletTransaction) (ts : List WalletTransaction)
    → has_reference t.reference ts ≡ true
    → (e : Error) × (◌≡◌ {A = Result (Unit {0}) × List WalletTransaction}
        (create fails t ts)
        (err e, ts))
unfolding create
create-duplicate true t ts h = (Error.other, refl)
create-duplicate false t ts h = (Error.conflict, rw h refl)

-- The database works well enough to undo what it did: rows can be read back, and the rollback of
-- the balance is not refused.
abbrev pub CanUndo : OpFaults → Type 0
CanUndo f = (f.update.reread_fails ≡ false) × (f.rollback.update_fails ≡ false)

-- Every wallet is a row that the database takes: 64-bit values, not below zero.
abbrev pub AreStored : Wallets → Type 0
AreStored ws = (b : ℕ) (w : Wallet) → ws b ≡ some w → is_stored w ≡ true

-- A failed deposit: an error and the state as it was.
abbrev pub Nothing : Result (Unit {0}) × Store → Store → Type 0
Nothing r s = (e : Error) × (◌≡◌ {A = Result (Unit {0}) × Store} r (err e, s))

-- A new deposit: the wallet has the amount more, the row is in, and the ledger was told.
abbrev pub Deposited :
    Result (Unit {0}) × Store → OpFaults → ℕ → DepositNotification → String → Store → Type 0
Deposited r f b n id s =
    (w : Wallet) × (s.wallets b ≡ some w)
    × (is_stored (credited n.amount w) ≡ true)
    × (has_reference n.reference s.transactions ≡ false)
    × (◌≡◌ {A = Result (Unit {0}) × Store} r (
      ok tt,
      record {
        wallets = set b (credited n.amount w) s.wallets;
        transactions = deposit_row f b n id w.balance (w.balance +ℤ n.amount) ∷ s.transactions;
        ledger = ledger_deposit f b n.amount n.reference id s.ledger;
      },
    ))

pub recorded :
    (fails : Bool) (r : String) (ts : List WalletTransaction)
    → already_recorded fails r ts ≡ true
    → has_reference r ts ≡ true
recorded true r ts h = absurd (true≢false (sym h))
recorded false r ts h = h

-- What two attempts leave: the row is in, or nothing is.
pub create-cases :
    (fails : Bool) (t : WalletTransaction) (ts : List WalletTransaction)
    → ((e : Error) × (◌≡◌ {A = Result (Unit {0}) × List WalletTransaction}
          (create fails t ts)
          (err e, ts)))
      ⊎ ((has_reference t.reference ts ≡ false)
          × (◌≡◌ {A = Result (Unit {0}) × List WalletTransaction}
              (create fails t ts)
              (ok tt, t ∷ ts)))
unfolding create
create-cases true t ts = inl (Error.other, refl)
create-cases false t ts = elim (Bool-cases (has_reference t.reference ts)) [
  | inl h ↦ inl (Error.conflict, rw h refl)
  | inr h ↦ inr (h, rw h refl)
]

create_twice-cases :
    (f : OpFaults) (t : WalletTransaction) (ts : List WalletTransaction)
    → ((e : Error) × (◌≡◌ {A = Result (Unit {0}) × List WalletTransaction}
          (create_twice f t ts)
          (err e, ts)))
      ⊎ ((has_reference t.reference ts ≡ false)
          × (◌≡◌ {A = Result (Unit {0}) × List WalletTransaction}
              (create_twice f t ts)
              (ok tt, t ∷ ts)))
unfolding create_twice
create_twice-cases f t ts = elim (create-cases f.create_fails t ts) [
  | inl (e, p) ↦ rw p (create-cases f.retry_fails t ts)
  | inr (h, p) ↦ inr (h, rw p refl)
]

module _ (f : OpFaults) (b : ℕ) (n : DepositNotification) (id : String) (s : Store)
    (undo : CanUndo f) (non_negative : pos 0 ≤ℤ n.amount) (fits : Fits n.amount) where
  settle-cases :
      (w : Wallet)
      → s.wallets b ≡ some w
      → is_stored w ≡ true
      → is_stored (credited n.amount w) ≡ true
      → (let r : Result (Unit {0}) × Store =
            record_incremented f b n id w.balance
              (ok (credited n.amount w), set b (credited n.amount w) s.wallets)
              s in
          Nothing r s ⊎ Deposited r f b n id s)
  unfolding record_incremented settle_deposit
  settle-cases w p k k' =
      elim (create_twice-cases f (deposit_row f b n id w.balance (w.balance +ℤ n.amount))
        s.transactions) [
          | inl (e, q) ↦ inl (
            e,
            rw q (
                rw
                  (increment_balance-rollback f.rollback b w n.amount (neg64 n.amount) s.wallets
                    undo.1 p k (neg64-undo w.balance n.amount fits non_negative))
                  refl),
          )
          | inr (h, q) ↦ inr (w, p, k', h, rw q refl)
        ]

  after_increment :
      (r : Result Wallet × Wallets) (w : Wallet)
      → s.wallets b ≡ some w
      → is_stored w ≡ true
      → Refused r s.wallets ⊎ Wrote r b (λ x. written (credited n.amount x)) s.wallets
      → Nothing (record_incremented f b n id w.balance r s) s
        ⊎ Deposited (record_incremented f b n id w.balance r s) f b n id s
  unfolding record_incremented
  after_increment r w p k (inl (e, q)) = inl (e, rw q refl)
  after_increment r w p k (inr (w', w'', p', g, k', q)) = rw q (
      subst
        (λ v.
          let r = record_incremented f b n id w.balance (ok v, set b v s.wallets) s in
          Nothing r s ⊎ Deposited r f b n id s)
        written_row (settle-cases w p k (ap is_stored written_row ∙ k')))
    where
      same_row : w ≡ w'
      same_row = some-inj (sym p ∙ p')

      written_row : credited n.amount w ≡ w''
      written_row = ap (credited n.amount) same_row ∙ written-inj g

  after_find :
      (o : Result Wallet)
      → ((e : Error) × (o ≡ err e)) ⊎ ((w : Wallet) × (s.wallets b ≡ some w) × (o ≡ ok w))
      → AreStored s.wallets
      → Nothing (deposit_into f b n id o s) s ⊎ Deposited (deposit_into f b n id o s) f b n id s
  unfolding deposit_into increment_balance
  after_find o (inl (e, q)) stored = inl (e, rw q refl)
  after_find o (inr (w, p, q)) stored = rw q (
      after_increment (increment_balance f.update b n.amount s.wallets) w p (stored b w p) (
        exec-cases f.update Error.not_found b (λ x. written (credited n.amount x)) s.wallets
          undo.0))

  -- `RecordDeposit` is all or nothing, over stored wallets and an amount that is a 64-bit value and not
  -- negative: when rows can be read back and the rollback is not refused, it has recorded the
  -- reference before and changes nothing, or it fails and changes nothing, or it credits the wallet,
  -- adds the row and tells the ledger; whichever of the other calls fail.
  pub record_deposit_op-cases :
      AreStored s.wallets
      → (◌≡◌ {A = Result (Unit {0}) × Store} (record_deposit_op f b n id s) (ok tt, s))
          × (has_reference n.reference s.transactions ≡ true)
        ⊎ (Nothing (record_deposit_op f b n id s) s
            ⊎ Deposited (record_deposit_op f b n id s) f b n id s)
  unfolding record_deposit_op
  record_deposit_op-cases stored =
      elim (Bool-cases (already_recorded f.lookup_fails n.reference s.transactions)) [
        | inl h ↦ inl (rw h refl, recorded f.lookup_fails n.reference s.transactions h)
        | inr h ↦ inr (
            rw h (
              after_find (find_by_business_id f.find_fails b s.wallets)
                (find-cases f.find_fails b s.wallets) stored))
      ]

set-here : (b b' : ℕ) (w : Wallet) (ws : Wallets) → (b' == b) ≡ true → some w ≡ set b w ws b'
set-here b b' w ws q = rw q refl

set-there : (b b' : ℕ) (w : Wallet) (ws : Wallets) → (b' == b) ≡ false → ws b' ≡ set b w ws b'
set-there b b' w ws q = rw q refl

pub AreStored-set :
    (b : ℕ) (w : Wallet) (ws : Wallets) → AreStored ws → is_stored w ≡ true → AreStored (set b w ws)
AreStored-set b w ws h k b' v p = elim (Bool-cases (b' == b)) [
  | inl q ↦ rw⁻¹ (some-inj (set-here b b' w ws q ∙ p)) k
  | inr q ↦ h b' v (set-there b b' w ws q ∙ p)
]
