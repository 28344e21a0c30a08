-- ===== src/Transfers/Types.antt =====
-- internal/domain/transfer.go: requests, the results of providers, the rows of the table transfers and
-- the responses. Times, the texts of errors, and the amounts of a bulk result, which no code reads,
-- are left out.
use Prim.Native.String.{String}
use payflow_backend.Common.{ℕ, Bool, List}

pub record SingleTransferRequest : Type 0 where
  pub reference : String
  pub amount : String
  pub bank_code : String
  pub account_number : String
  pub account_name : String
  pub narration : String
  pub currency : String
  pub preferred_provider : String
  pub business_id : ℕ
  pub business_email : String

pub record TransferResult : Type 0 where
  pub success : Bool
  pub reference : String
  pub transaction_id : String
  pub status : String
  pub message : String
  pub provider : String
  pub fee : String

pub record Transfer : Type 0 where
  pub id : ℕ
  pub business_id : ℕ
  pub reference : String
  pub amount : String
  pub currency : String
  pub narration : String
  pub recipient_bank_code : String
  pub recipient_account_number : String
  pub recipient_account_name : String
  pub provider : String
  pub status : String
  pub transaction_id : String
  pub provider_status : String
  pub provider_message : String
  pub fee : String

pub record SingleTransferResponse : Type 0 where
  pub success : Bool
  pub transfer_id : ℕ
  pub reference : String
  pub transaction_id : String
  pub status : String
  pub message : String
  pub provider : String
  pub fee : String

pub record BulkTransferRequest : Type 0 where
  pub batch_reference : String
  pub description : String
  pub currency : String
  pub merchant_bears_cost : Bool
  pub transfers : List SingleTransferRequest
  pub business_id : ℕ
  pub business_email : String

pub record BulkTransferResult : Type 0 where
  pub success : Bool
  pub batch_reference : String
  pub provider : String
  pub status : String
  pub message : String
  pub transfer_results : List TransferResult

pub record BulkTransferResponse : Type 0 where
  pub success : Bool
  pub batch_reference : String
  pub total_transfers : ℕ
  pub successful_transfers : ℕ
  pub failed_transfers : ℕ
  pub pending_transfers : ℕ
  pub provider : String
  pub transfers : List SingleTransferResponse
