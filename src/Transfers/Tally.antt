-- ===== src/Transfers/Tally.antt =====
-- A batch is always answered, and its counters add up.
use payflow_backend.Common.{
  ℕ, suc, ◌+◌, ◌<◌, ◌≡◌, refl, sym, ap, ◌∙◌, inl, inr, true, Option, none, some, List, [], ◌∷◌,
  ◌==◌, map, length, arith, Bool-cases, true≢false,
}
use payflow_backend.Common.Errors.{Result, ok, err}
use payflow_backend.Provider.Manager.{BulkTransferrer}
use payflow_backend.Provider.Bulk.{
  Texts, initiate_bulk_transfer_op, bulk_by, handle_bulk_with_native_support,
}
use payflow_backend.Provider.Bulk.Sizes.{EndsIn, handle_bulk_legal}
use payflow_backend.Transfers.Types.{
  SingleTransferRequest, Transfer, SingleTransferResponse, BulkTransferRequest, BulkTransferResult,
  BulkTransferResponse,
}
use payflow_backend.Transfers.Prepare.{failed_response, pending_transfer}
use payflow_backend.Transfers.Responses.{
  response_for, is_waiting, count_success, count_pending, count_failed,
}
use payflow_backend.Transfers.References.{
  references, response_references, row_references, pending-references, create_batch-references,
  responses-references,
}
use payflow_backend.Transfers.Service.{TransferService, TransferState}
use payflow_backend.Transfers.Table.{create_batch}
use payflow_backend.Transfers.Batch.{
  BatchCalls, prepare_bulk_transfer_request, first_invalid, refused_batch, batch_answered, if_ended,
  batch_sent, unless_invalid, execute_batch_transfer,
}

-- There is a result, and it has the property.
abbrev pub Yields : {A : Type 0} → (A → Type 0) → Option A → Type 0
Yields P none = ⊥
Yields P (some a) = P a

counted :
    (rs : List SingleTransferResponse)
    → count_success rs + count_failed rs + count_pending rs ≡ length (response_references rs)
counted [] = omega arith
counted (r ∷ rs) = elim (Bool-cases r.success) [
  | inl q ↦ rw q (omega (arith, counted rs))
  | inr q ↦ rw q (elim (Bool-cases (is_waiting r.status)) [
    | inl k ↦ rw k (omega (arith, counted rs))
    | inr k ↦ rw k (omega (arith, counted rs))
  ])
]

length-references : (rs : List SingleTransferRequest) → length (references rs) ≡ length rs
length-references [] = refl
length-references (r ∷ rs) = ap suc (length-references rs)

-- The counters sum to the number of transfers; a batch is a success only without a failure, and then
-- there is one response for each transfer, in their order.
abbrev pub IsTallied : BulkTransferRequest → BulkTransferResponse → Type 0
IsTallied req r =
    (r.total_transfers ≡ length req.transfers)
    × (r.successful_transfers + r.failed_transfers + r.pending_transfers ≡ r.total_transfers)
    × (r.success ≡ true
        → (r.failed_transfers ≡ 0) × (response_references r.transfers ≡ references req.transfers))

-- The provider takes batches of some size, or takes no batches.
abbrev pub HasRoom : {World : Type 0} → Option (BulkTransferrer World) → Type 0
HasRoom none = Unit
HasRoom (some b) = 0 < b.max_batch_size

module _ {World : Type 0} (service : TransferService World) (texts : Texts) (calls : BatchCalls)
    (business_id : ℕ) where
  refused-IsTallied :
      (req : BulkTransferRequest) (responses : List SingleTransferResponse)
      → IsTallied req (refused_batch service texts calls business_id req responses)
  refused-IsTallied req responses = (refl, omega arith, λ h. absurd (true≢false (sym h)))

  no_failure : (n : ℕ) → (n == 0) ≡ true → n ≡ 0
  no_failure n h = ground arith

  answered-IsTallied :
      (req : BulkTransferRequest) (records : List Transfer) (st : TransferState World)
      (r : Result BulkTransferResult × World)
      → row_references records ≡ references req.transfers
      → IsTallied req (batch_answered service texts calls business_id req records st r).0
  unfolding batch_answered
  answered-IsTallied req records st (err e, w) h = refused-IsTallied req []
  answered-IsTallied req records st (ok result, w) h =
      let responses = map (response_for result) records in
      let same = responses-references result records ∙ h in
      (
        refl,
        counted responses ∙ ap length same ∙ length-references req.transfers,
        λ q. (no_failure (count_failed responses) q, same),
      )

  ended-IsTallied :
      (req : BulkTransferRequest) (records : List Transfer) (st : TransferState World)
      (o : Option (Result BulkTransferResult × World))
      → row_references records ≡ references req.transfers
      → Yields (λ r. Unit) o
      → Yields (λ r. IsTallied req r.0) (if_ended service texts calls business_id req records st o)
  ended-IsTallied req records st none h k = k
  ended-IsTallied req records st (some r) h k = answered-IsTallied req records st r h

  pub bulk_by-ends :
      (req : BulkTransferRequest) (o : Option (BulkTransferrer World)) (w : World)
      → HasRoom o
      → Yields (λ r. Unit) (bulk_by texts service.provider_manager calls.schedule req o w)
  bulk_by-ends req none w h = tt
  bulk_by-ends req (some b) w h =
      some_result
        (handle_bulk_with_native_support texts service.provider_manager.default_provider b
          calls.schedule req w)
        (handle_bulk_legal texts service.provider_manager.default_provider (λ w. Unit {0}) b
          calls.schedule req (λ t w k. tt) (λ r w least most k. tt) w h tt)
    where
      some_result :
          (o : Option (Result BulkTransferResult × World))
          → EndsIn texts service.provider_manager.default_provider
              (λ w. Unit {0})
              b
              calls.schedule
              req
              (λ t w k. tt)
              (λ r w least most k. tt)
              (λ (r : Result BulkTransferResult × World). r.1)
              o
          → Yields (λ r. Unit) o
      some_result none k = k
      some_result (some r) k = tt

  sent-IsTallied :
      (req : BulkTransferRequest) (st : TransferState World)
      → HasRoom service.provider_manager.default_provider.bulk
      → Yields (λ r. IsTallied req r.0) (batch_sent service texts calls business_id req st)
  unfolding batch_sent initiate_bulk_transfer_op
  sent-IsTallied req st room =
      let rows = map pending_transfer req.transfers in
      let (records, table) = create_batch calls.create_fails rows st.table in
      ended-IsTallied req records (record st { table = table }) _
        (create_batch-references calls.create_fails rows st.table
          ∙ pending-references req.transfers)
        (bulk_by-ends req service.provider_manager.default_provider.bulk st.live.world room)

  valid-IsTallied :
      (req : BulkTransferRequest) (o : Option SingleTransferRequest) (st : TransferState World)
      → HasRoom service.provider_manager.default_provider.bulk
      → Yields (λ r. IsTallied req r.0) (unless_invalid service texts calls business_id req o st)
  valid-IsTallied req none st room = sent-IsTallied req st room
  valid-IsTallied req (some r) st room = refused-IsTallied req (failed_response 0 r.reference ∷ [])

  -- When the default provider takes no native batches, or takes some of a size above zero,
  -- `ExecuteBatchTransfer` always ends with a response, whatever calls fail. Its three counters sum to
  -- the number of transfers; and if it is a success, no transfer failed, and it has one response for
  -- each transfer, with the reference of that transfer, in the order of the request.
  pub execute_batch_transfer-IsTallied :
      (req : BulkTransferRequest) (st : TransferState World)
      → HasRoom service.provider_manager.default_provider.bulk
      → Yields
          (λ r. IsTallied (prepare_bulk_transfer_request service texts calls business_id req) r.0)
          (execute_batch_transfer service texts calls business_id req st)
  unfolding execute_batch_transfer
  execute_batch_transfer-IsTallied req st room =
      let prepared = prepare_bulk_transfer_request service texts calls business_id req in
      valid-IsTallied prepared (first_invalid service texts calls business_id prepared.transfers) st
        room
