-- ===== src/Transfers/Effect.antt =====
-- What `ExecuteTransfer` does to the wallet between the lock and the deferred unlock.
use payflow_backend.Common.{
  ℕ, ◌≡◌, refl, ◌⊎◌, inl, inr, Bool, true, false, Option, none, some, ◌&&◌, Bool-cases, if-holds,
}
use payflow_backend.Common.Int.{ℤ}
use payflow_backend.Common.Errors.{Result, ok, err}
use payflow_backend.Common.Texts.{same_text}
use payflow_backend.Provider.Manager.{TransferProvider, Live, get_provider, initiate_transfer_op}
use payflow_backend.Transfers.Types.{
  SingleTransferRequest, TransferResult, Transfer, SingleTransferResponse,
}
use payflow_backend.Transfers.Prepare.{ExecuteCalls, pending_transfer, with_result, response_of}
use payflow_backend.Transfers.Service.{
  TransferService, TransferState, Outcome, is_ok, withdrawal_of, withdrawn, completed, answered,
  sent_by, sent, inserted, transferred,
}
use payflow_backend.Transfers.Table.{TransferTable, create}
use payflow_backend.Wallet.Service.{Store, record_withdrawal_op}

-- The response says that the money arrived.
abbrev pub is_settled : SingleTransferResponse → Bool
is_settled r = r.success && same_text r.status "success"

module _ {World : Type 0} (service : TransferService World) (calls : ExecuteCalls) (business_id : ℕ)
    (req : SingleTransferRequest) (amount : ℤ)
    (wallets_on : service.has_wallet_service ≡ true) where
  -- The call of `RecordWithdrawal` for the row `t` and the result `x`.
  abbrev pub call_of : Transfer → TransferResult → Store → Result (Unit {0}) × Store
  call_of t x s =
      record_withdrawal_op calls.withdrawal business_id
        (withdrawal_of service calls business_id req amount t x) s

  -- Either the wallet is not touched, or a settled transfer is withdrawn from it.
  abbrev pub Effect : Store → Outcome World → Type 0
  Effect s o =
      ((is_settled o.response ≡ false) × (o.state.wallet ≡ s) × (o.withdrawal_recorded ≡ false))
      ⊎ ((is_settled o.response ≡ true)
          × ((t : Transfer) × (x : TransferResult) × (o.response ≡ response_of t.id req.reference x)
              × (o.state.wallet ≡ (call_of t x s).1)
              × (o.withdrawal_recorded ≡ is_ok (call_of t x s).0)))

  completed-Effect :
      (t : Transfer) (x : TransferResult) (st : TransferState World)
      → Effect st.wallet (completed service calls business_id req amount t x st)
  unfolding completed withdrawn
  completed-Effect t x st = elim (Bool-cases (x.success && same_text x.status "success")) [
    | inl q ↦ rw wallets_on (rw q (inr (q, (t, x, refl, refl, refl))))
    | inr q ↦ rw wallets_on (rw q (inl (q, refl, refl)))
  ]

  answered-Effect :
      (t : Transfer) (st : TransferState World) (r : Result TransferResult × Live World)
      → Effect st.wallet (answered service calls business_id req amount t st r)
  unfolding answered
  answered-Effect t st (err e, live) = inl (refl, refl, refl)
  answered-Effect t st (ok x, live) = completed-Effect (with_result x t) x _

  sent_by-Effect :
      (t : Transfer) (st : TransferState World) (o : Option (TransferProvider World))
      → Effect st.wallet (sent_by service calls business_id req amount t st o)
  unfolding sent_by
  sent_by-Effect t st none = inl (refl, refl, refl)
  sent_by-Effect t st (some p) = answered-Effect t st _

  sent-Effect :
      (t : Transfer) (st : TransferState World)
      → Effect st.wallet (sent service calls business_id req amount t st)
  unfolding sent
  sent-Effect t st =
      let chain = initiate_transfer_op service.now service.provider_manager req st.live in
      let preferred = get_provider service.provider_manager req.preferred_provider in
      if-holds (Effect st.wallet) (same_text req.preferred_provider "")
        (answered service calls business_id req amount t st chain)
        (sent_by service calls business_id req amount t st preferred) (answered-Effect t st chain)
        (sent_by-Effect t st preferred)

  inserted-Effect :
      (r : Result Transfer × TransferTable) (st : TransferState World)
      → Effect st.wallet (inserted service calls business_id req amount r st)
  unfolding inserted
  inserted-Effect (err e, table) st = inl (refl, refl, refl)
  inserted-Effect (ok t, table) st = sent-Effect t (record st { table = table })

  pub transferred-Effect :
      (st : TransferState World)
      → Effect st.wallet (transferred service calls business_id req amount st)
  unfolding transferred
  transferred-Effect st =
      inserted-Effect (create calls.create_fails (pending_transfer req) st.table) st
