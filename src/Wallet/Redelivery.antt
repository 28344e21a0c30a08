-- ===== src/Wallet/Redelivery.antt =====
-- `RecordDeposit` of internal/service/wallet_service.go, called twice with one notification.
use Prim.Native.String.{String}
use payflow_backend.Common.{ℕ, ◌≡◌, refl, sym, ◌∙◌, ap, inl, inr, true, true≢false}
use payflow_backend.Common.Int.{pos, ◌≤ℤ◌}
use payflow_backend.Common.Int64.{Fits}
use payflow_backend.Common.Errors.{ok, ok≢err}
use payflow_backend.Common.Texts.{same_text_iff}
use payflow_backend.Wallet.Store.{has_reference}
use payflow_backend.Wallet.Updates.{credited}
use payflow_backend.Wallet.Service.{Store, DepositNotification, OpFaults, record_deposit_op}
use payflow_backend.Wallet.Deposits.{CanUndo, AreStored, AreStored-set, record_deposit_op-cases}

-- Over stored wallets, for an amount that is not negative and fits in 64 bits, and in
-- two calls where rows can be read back and rollbacks are not refused: once a deposit has
-- succeeded, a second delivery of its notification changes nothing, not even when the lookup of
-- the reference fails, since the unique index refuses the row and the balance goes back.
pub record_deposit_op-once :
    (f f' : OpFaults) (b : ℕ) (n : DepositNotification) (id id' : String) (s : Store)
    → CanUndo f
    → CanUndo f'
    → pos 0 ≤ℤ n.amount
    → Fits n.amount
    → AreStored s.wallets
    → (record_deposit_op f b n id s).0 ≡ ok tt
    → (record_deposit_op f' b n id' (record_deposit_op f b n id s).1).1
      ≡ (record_deposit_op f b n id s).1
unfolding has_reference
record_deposit_op-once f f' b n id id' s u u' nn fits stored success =
    elim (record_deposit_op-cases f b n id s u nn fits stored) [
      | inl (p, h) ↦ rw p (again s stored h)
      | inr (inl (e, p)) ↦ absurd (ok≢err (sym success ∙ ap (λ r. r.0) p))
      | inr (inr (w, p, k, h, q)) ↦ rw q (
          again _ (AreStored-set b (credited n.amount w) s.wallets stored k)
            (rw ((same_text_iff n.reference n.reference).1 refl) refl))
    ]
  where
    again :
        (t : Store)
        → AreStored t.wallets
        → has_reference n.reference t.transactions ≡ true
        → (record_deposit_op f' b n id' t).1 ≡ t
    again t stored' h = elim (record_deposit_op-cases f' b n id' t u' nn fits stored') [
      | inl (p, h') ↦ ap (λ r. r.1) p
      | inr (inl (e, p)) ↦ ap (λ r. r.1) p
      | inr (inr (w, p, k, h', q)) ↦ absurd (true≢false (sym h ∙ h'))
    ]
