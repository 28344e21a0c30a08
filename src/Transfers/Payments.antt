-- ===== src/Transfers/Payments.antt =====
-- When `ExecuteTransfer` moves money: once at most, and only when the wallet covers it.
use Prim.Native.String.{String}
use payflow_backend.Common.{
  ℕ, Bool, List, ◌∷◌, if◌then◌else◌, ◌≡◌, refl, sym, ap, subst, ◌∙◌, ◌⊎◌, inl, inr, true, false,
  Option, none, some, ◌&&◌, All, if-holds, if-true,
}
use payflow_backend.Common.Int.{ℤ, ◌-ℤ◌, ◌≤ℤ◌}
use payflow_backend.Common.Errors.{Error, Result, ok, err}
use payflow_backend.Common.Texts.{same_text}
use payflow_backend.Provider.Manager.{
  TransferProvider, Live, default_and_fallback_providers, get_provider, initiate_transfer_op,
}
use payflow_backend.Provider.Manager.Payments.{Pays, IsHonest, PaysOnce, initiate_transfer-PaysOnce}
use payflow_backend.Transfers.Types.{
  SingleTransferRequest, TransferResult, Transfer, SingleTransferResponse,
}
use payflow_backend.Transfers.Prepare.{
  ExecuteCalls, pending_transfer, with_result, parse_amount_to_kobo,
}
use payflow_backend.Transfers.Service.{
  TransferService, TransferState, Outcome, withdrawn, completed, answered, in_world, sent_by, sent,
  inserted, transferred, unlocked, with_lock, with_balance, with_amount, with_valid, prepared,
  execute_transfer,
}
use payflow_backend.Transfers.Table.{TransferTable, create}
use payflow_backend.Wallet.Store.{Wallet}
use payflow_backend.Wallet.Service.{Store}
use payflow_backend.Wallet.Locks.{Locked, lock_balance-cases}

module _ {World : Type 0} (paid : World → List SingleTransferRequest)
    (service : TransferService World) (calls : ExecuteCalls) (b : ℕ) where
  -- Each provider that the service can call pays a request exactly once with a successful result, and
  -- pays nothing with any other answer.
  abbrev pub AreHonest : Type 0
  AreHonest =
      All (IsHonest paid) (default_and_fallback_providers service.provider_manager)
      × ((name : String) (p : TransferProvider World)
          → service.provider_manager.all_providers name ≡ some p
          → IsHonest paid p)

  -- Nothing was paid, or this request was paid once.
  abbrev pub AtMostOnce : SingleTransferRequest → Live World → Live World → Type 0
  AtMostOnce req before after =
      (paid after.world ≡ paid before.world) ⊎ (paid after.world ≡ req ∷ paid before.world)

  once_if :
      (req : SingleTransferRequest) (c : Bool) (before after : Live World)
      → paid after.world ≡ (if c then req ∷ paid before.world else paid before.world)
      → AtMostOnce req before after
  once_if req true before after h = inr h
  once_if req false before after h = inl h

  completed-live :
      (req : SingleTransferRequest) (amount : ℤ) (t : Transfer) (x : TransferResult)
      (st : TransferState World)
      → (completed service calls b req amount t x st).state.live ≡ st.live
  unfolding completed withdrawn
  completed-live req amount t x st =
      if-holds (λ (o : Outcome World). o.state.live ≡ st.live)
        (service.has_wallet_service && (x.success && same_text x.status "success")) _ _ refl refl

  module _ (honest : AreHonest) (req : SingleTransferRequest) (amount : ℤ) where
    answered_once :
        (t : Transfer) (before : Live World) (st : TransferState World)
        (r : Result TransferResult × Live World)
        → PaysOnce paid req r before
        → AtMostOnce req before (answered service calls b req amount t st r).state.live
    unfolding answered
    answered_once t before st (err e, live) h = inl h
    answered_once t before st (ok x, live) h =
        once_if req x.success before
          (answered service calls b req amount t st (ok x, live)).state.live
          (ap (λ l. paid l.world) (completed-live req amount (with_result x t) x _) ∙ h)

    called :
        (live : Live World) (r : Result TransferResult × World)
        → Pays paid req r live.world
        → PaysOnce paid req (in_world service calls b req live r) live
    called live (ok x, w) h = h
    called live (err e, w) h = h

    sent_by_once :
        (t : Transfer) (st : TransferState World) (o : Option (TransferProvider World))
        → ((p : TransferProvider World) → o ≡ some p → IsHonest paid p)
        → AtMostOnce req st.live (sent_by service calls b req amount t st o).state.live
    unfolding sent_by
    sent_by_once t st none h = inl refl
    sent_by_once t st (some p) h =
        let r = p.initiate_transfer req st.live.world in
        answered_once t st.live st (in_world service calls b req st.live r)
          (called st.live r (h p refl req st.live.world))

    sent_once :
        (t : Transfer) (st : TransferState World)
        → AtMostOnce req st.live (sent service calls b req amount t st).state.live
    unfolding sent
    sent_once t st =
        let chain = initiate_transfer_op service.now service.provider_manager req st.live in
        let preferred = get_provider service.provider_manager req.preferred_provider in
        if-holds (λ (o : Outcome World). AtMostOnce req st.live o.state.live)
          (same_text req.preferred_provider "") (answered service calls b req amount t st chain)
          (sent_by service calls b req amount t st preferred)
          (answered_once t st.live st chain (
            initiate_transfer-PaysOnce paid service.now service.provider_manager req st.live
              honest.0))
          (sent_by_once t st preferred (honest.1 req.preferred_provider))

    inserted_once :
        (r : Result Transfer × TransferTable) (st : TransferState World)
        → AtMostOnce req st.live (inserted service calls b req amount r st).state.live
    unfolding inserted
    inserted_once (err e, table) st = inl refl
    inserted_once (ok t, table) st = sent_once t (record st { table = table })

    transferred_once :
        (st : TransferState World)
        → AtMostOnce req st.live (transferred service calls b req amount st).state.live
    unfolding transferred
    transferred_once st =
        inserted_once (create calls.create_fails (pending_transfer req) st.table) st

    unlocked-live :
        (o : Outcome World) → (unlocked service calls b req amount o).1.live ≡ o.state.live
    unfolding unlocked
    unlocked-live o =
        if-holds (λ (r : SingleTransferResponse × TransferState World). r.1.live ≡ o.state.live)
          o.withdrawal_recorded (o.response, o.state) _ refl refl

  -- The amount of the request is a number, and the wallet has it.
  abbrev pub IsCovered : SingleTransferRequest → Store → Type 0
  IsCovered req s =
      (amount : ℤ) × (w : Wallet) × (parse_amount_to_kobo service.parsing req.amount ≡ ok amount)
      × (s.wallets b ≡ some w)
      × (amount ≤ℤ w.balance -ℤ w.locked_balance)

  -- No payment; or one, of this request, whose amount the wallet covered.
  abbrev pub IsPrudent :
      SingleTransferRequest
      → TransferState World
      → SingleTransferResponse × TransferState World
      → Type 0
  IsPrudent req st r =
      (paid r.1.live.world ≡ paid st.live.world)
      ⊎ ((paid r.1.live.world ≡ req ∷ paid st.live.world) × IsCovered req st.wallet)

  module _ (honest : AreHonest) (wallets_on : service.has_wallet_service ≡ true)
      (reread : calls.lock.reread_fails ≡ false) (req : SingleTransferRequest) where
    prudent :
        (st st' : TransferState World) (r : SingleTransferResponse)
        → IsCovered req st.wallet
        → AtMostOnce req st.live st'.live
        → IsPrudent req st (r, st')
    prudent st st' r covered (inl h) = inl h
    prudent st st' r covered (inr h) = inr (h, covered)

    with_lock-IsPrudent :
        (amount : ℤ) (st : TransferState World) (r : Result (Unit {0}) × Store)
        → parse_amount_to_kobo service.parsing req.amount ≡ ok amount
        → ((e : Error) × (◌≡◌ {A = Result (Unit {0}) × Store} r (err e, st.wallet)))
          ⊎ Locked r b amount st.wallet
        → IsPrudent req st (with_lock service calls b req amount r st)
    unfolding with_lock
    with_lock-IsPrudent amount st (err e, s) q h = inl refl
    with_lock-IsPrudent amount st (ok u, s) q (inl (e, h)) = absurd (cc)
    with_lock-IsPrudent amount st (ok u, s) q (inr (w, found, available, k, h)) =
        let o = transferred service calls b req amount (record st { wallet = s }) in
        let (response, st') = unlocked service calls b req amount o in
        prudent st st' response (amount, w, q, found, available)
          (subst (λ live. AtMostOnce req st.live live) (sym (unlocked-live honest req amount o))
            (transferred_once honest req amount (record st { wallet = s })))

    with_balance-IsPrudent :
        (amount : ℤ) (r : Result (Unit {0})) (st : TransferState World)
        → parse_amount_to_kobo service.parsing req.amount ≡ ok amount
        → IsPrudent req st (with_balance service calls b req amount r st)
    unfolding with_balance
    with_balance-IsPrudent amount (err e) st q = inl refl
    with_balance-IsPrudent amount (ok u) st q =
        with_lock-IsPrudent amount st _ q (lock_balance-cases calls.lock b amount st.wallet reread)

    with_amount-IsPrudent :
        (r : Result ℤ) (st : TransferState World)
        → parse_amount_to_kobo service.parsing req.amount ≡ r
        → IsPrudent req st (with_amount service calls b req r st)
    unfolding with_amount
    with_amount-IsPrudent (err e) st q = inl refl
    with_amount-IsPrudent (ok amount) st q = with_balance-IsPrudent amount _ st q

    with_valid-IsPrudent :
        (r : Result (Unit {0})) (st : TransferState World)
        → IsPrudent req st (with_valid service calls b req r st)
    unfolding with_valid
    with_valid-IsPrudent (err e) st = inl refl
    with_valid-IsPrudent (ok u) st =
        let amount = parse_amount_to_kobo service.parsing req.amount in
        if-true (IsPrudent req st) service.has_wallet_service
          (with_amount service calls b req amount st) _ wallets_on
          (with_amount-IsPrudent amount st refl)

  -- When each provider pays the request that it gets exactly once with a successful result, and pays
  -- nothing with any other answer, one call of `ExecuteTransfer` with a wallet service pays nothing,
  -- or it pays exactly the prepared request, once, and then the amount in that request is a number
  -- that the unlocked balance of the wallet covers; whatever other calls fail, but a lock that is
  -- taken can be read back.
  pub execute_transfer-IsPrudent :
      (req : SingleTransferRequest) (st : TransferState World)
      → AreHonest
      → service.has_wallet_service ≡ true
      → calls.lock.reread_fails ≡ false
      → IsPrudent (prepared service calls b req) st (execute_transfer service calls b req st)
  unfolding execute_transfer
  execute_transfer-IsPrudent req st honest wallets_on reread =
      with_valid-IsPrudent honest wallets_on reread (prepared service calls b req) _ st
