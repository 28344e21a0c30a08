-- ===== src/Transfers/Prepare.antt =====
-- internal/service/transfer_service.go: what happens to a request before it is sent, and the records
-- made of it. The number parsers of the package strconv and the rounding of the package math are the
-- parameter `Parsing`; an `ExecuteCalls` value says which calls of one execution fail, and what its
-- random and database reads give.
use Prim.Native.String.{String}
use payflow_backend.Common.{ℕ, Bool, false, Option, none, some, ◌&&◌, if◌then◌else◌}
use payflow_backend.Common.Int.{ℤ, pos, ltb_ℤ}
use payflow_backend.Common.Errors.{Error, Result, ok, err, guard_not, ◌>>=◌, ◌>>◌}
use payflow_backend.Common.Texts.{same_text}
use payflow_backend.Transfers.Types.{
  SingleTransferRequest, TransferResult, Transfer, SingleTransferResponse,
}
use payflow_backend.Wallet.Store.{Faults}
use payflow_backend.Wallet.Service.{OpFaults}

-- `ParseInt`; `int64(math.Round(f))` and `int64(math.Round(f * 100))` of the result of `ParseFloat`.
pub record Parsing : Type 0 where
  pub parse_int : String → Option ℤ
  pub rounded : String → Option ℤ
  pub rounded_hundredfold : String → Option ℤ

pub record TransferConfig : Type 0 where
  pub min_amount : ℤ
  pub max_amount : ℤ

pub record ExecuteCalls : Type 0 where
  pub generated_reference : String
  pub admin_email : Option String
  pub fallback_email : String
  pub check_fails : Bool
  pub lock : Faults
  pub unlock : Faults
  pub create_fails : Bool
  pub update_fails : Bool
  pub withdrawal : OpFaults
  pub transaction_id : String
  pub fee_transaction_id : String

abbrev pub or_err : Option ℤ → Result ℤ
or_err none = err Error.other
or_err (some a) = ok a

abbrev pub or_text : String → String → String
or_text text default_text = if same_text text "" then default_text else text

-- `prepareTransferRequest`
unfoldable pub prepare_transfer_request :
    (generated : String) → ℕ → SingleTransferRequest → SingleTransferRequest
prepare_transfer_request generated business_id req = record req {
  reference = or_text req.reference generated;
  currency = or_text req.currency "NGN";
  narration = or_text req.narration "Transfer";
  business_id = business_id;
}

abbrev pub email_or : String → Option String → String
email_or fallback none = fallback
email_or fallback (some email) = email

-- `enrichWithBusinessEmail`
abbrev pub enrich_with_business_email : ExecuteCalls → SingleTransferRequest → SingleTransferRequest
enrich_with_business_email calls req = record req {
  business_email = email_or calls.fallback_email calls.admin_email;
}

module _ (parsing : Parsing) (config : TransferConfig) where
  abbrev pub int_or_rounded : Option ℤ → String → Result ℤ
  int_or_rounded (some a) text = ok a
  int_or_rounded none text = or_err (parsing.rounded text)

  -- `validateTransferAmount`
  unfoldable pub validate_transfer_amount : String → Result (Unit {0})
  validate_transfer_amount text = int_or_rounded (parsing.parse_int text) text >>= λ amount.
      guard_not (ltb_ℤ (pos 0) config.min_amount && ltb_ℤ amount config.min_amount) Error.other
      >> guard_not (ltb_ℤ (pos 0) config.max_amount && ltb_ℤ config.max_amount amount) Error.other

-- `parseAmountToKobo`
unfoldable pub parse_amount_to_kobo : Parsing → String → Result ℤ
parse_amount_to_kobo parsing text = or_err (parsing.rounded_hundredfold text)

abbrev pub or_zero : Result ℤ → ℤ
or_zero (err e) = pos 0
or_zero (ok a) = a

abbrev pub failed_response : ℕ → String → SingleTransferResponse
failed_response id reference = record {
  success = false;
  transfer_id = id;
  reference = reference;
  transaction_id = "";
  status = "failed";
  message = "";
  provider = "";
  fee = "";
}

abbrev pub pending_transfer : SingleTransferRequest → Transfer
pending_transfer req = record {
  id = 0;
  business_id = req.business_id;
  reference = req.reference;
  amount = req.amount;
  currency = req.currency;
  narration = req.narration;
  recipient_bank_code = req.bank_code;
  recipient_account_number = req.account_number;
  recipient_account_name = req.account_name;
  provider = "";
  status = "pending";
  transaction_id = "";
  provider_status = "";
  provider_message = "";
  fee = "";
}

abbrev pub with_result : TransferResult → Transfer → Transfer
with_result x t = record t {
  provider = x.provider;
  status = x.status;
  transaction_id = x.transaction_id;
  provider_status = x.status;
  provider_message = x.message;
  fee = x.fee;
}

abbrev pub response_of : ℕ → String → TransferResult → SingleTransferResponse
response_of id reference x = record {
  success = x.success;
  transfer_id = id;
  reference = reference;
  transaction_id = x.transaction_id;
  status = x.status;
  message = x.message;
  provider = x.provider;
  fee = x.fee;
}
