-- ===== src/Examples/Providers.antt =====
-- Two providers, one of which is down; the world is the list of the payments.
use Prim.Native.String.{String}
use payflow_backend.Common.{
  ℕ, List, ◌≡◌, refl, true, false, Option, none, some, [], ◌∷◌, if◌then◌else◌,
}
use payflow_backend.Common.Int.{pos}
use payflow_backend.Common.Errors.{Error, ok, err}
use payflow_backend.Common.Texts.{same_text}
use payflow_backend.Provider.Breaker.{CircuitState, CircuitBreaker, allow, allow_in}
use payflow_backend.Provider.Manager.{
  TransferProvider, TransferProviderManager, Live, initiate_transfer_op,
}
use payflow_backend.Provider.Manager.Payments.{PaysOnce, initiate_transfer-PaysOnce}
use payflow_backend.Provider.Manager.Reach.{
  IsUntouched, Refuses, IsOk, initiate_transfer-refused, initiate_transfer_available,
}
use payflow_backend.Transfers.Types.{SingleTransferRequest, TransferResult}

abbrev pub Paid : Type 0
Paid = List SingleTransferRequest

abbrev pub payments : Paid → List SingleTransferRequest
payments w = w

abbrev pub clock : Paid → ℕ
clock w = 60

abbrev pub some_request : SingleTransferRequest
some_request = record {
  reference = "TRF-1";
  amount = "1000";
  bank_code = "044";
  account_number = "0123456789";
  account_name = "Ada Obi";
  narration = "Salary";
  currency = "NGN";
  preferred_provider = "";
  business_id = 7;
  business_email = "";
}

abbrev pub paid_result : SingleTransferRequest → TransferResult
paid_result req = record {
  success = true;
  reference = req.reference;
  transaction_id = "T1";
  status = "success";
  message = "";
  provider = "vfd";
  fee = "";
}

abbrev pub down : TransferProvider Paid
down = record { name = "korapay"; initiate_transfer = λ req w. (err Error.other, w); bulk = none }

abbrev pub ready : TransferProvider Paid
ready = record {
  name = "vfd";
  initiate_transfer = λ req w. (ok (paid_result req), req ∷ w);
  bulk = none;
}

abbrev pub by_name : String → Option (TransferProvider Paid)
by_name name =
    if same_text name "korapay"
    then some down
    else if same_text name "vfd"
    then some ready
    else none

abbrev pub two_providers : TransferProviderManager Paid
two_providers = record {
  default_provider = down;
  fallback_providers = ready ∷ [];
  all_providers = by_name;
}

abbrev pub quiet : Live Paid
quiet = record { breakers = λ name. none; world = [] }

initiate_transfer-PaysOnce_example :
    PaysOnce payments some_request
      (initiate_transfer_op clock two_providers some_request quiet)
      quiet
initiate_transfer-PaysOnce_example =
    initiate_transfer-PaysOnce payments clock two_providers some_request quiet
      ((λ req w. refl), ((λ req w. refl), tt))

abbrev opened_breaker : CircuitBreaker
opened_breaker = record { state = CircuitState.circuit_open; failures = pos 5; last_failure = 5 }

abbrev all_open : Live Paid
all_open = record { breakers = λ name. some opened_breaker; world = [] }

refuses : (p : TransferProvider Paid) → Refuses clock all_open.breakers [] p
unfolding allow allow_in
refuses p = refl

initiate_transfer-refused_example :
    IsUntouched clock (initiate_transfer_op clock two_providers some_request all_open) all_open
initiate_transfer-refused_example =
    initiate_transfer-refused clock two_providers some_request all_open
      (refuses down, (refuses ready, tt))

others : same_text "vfd" "korapay" ≡ false
unfolding same_text
others = refl

initiate_transfer_available_example :
    IsOk clock (initiate_transfer_op clock two_providers some_request quiet).0
initiate_transfer_available_example =
    initiate_transfer_available clock ready some_request (λ w. tt) two_providers (down ∷ []) []
      quiet refl (others, tt) refl
