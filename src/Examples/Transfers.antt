-- ===== src/Examples/Transfers.antt =====
-- Transfers from a funded wallet, one by one and in a batch.
use payflow_backend.Common.{◌≡◌, refl, ap, subst, true, false, Option, none, some, [], arith}
use payflow_backend.Common.Int.{ℤ, pos}
use payflow_backend.Common.Int64.{Fits}
use payflow_backend.Transfers.Prepare.{Parsing, ExecuteCalls}
use payflow_backend.Transfers.Service.{TransferService, TransferState, prepared, execute_transfer}
use payflow_backend.Transfers.Funds.{Safe, execute_transfer-Safe}
use payflow_backend.Transfers.Payments.{IsPrudent, AreHonest, execute_transfer-IsPrudent}
use payflow_backend.Transfers.Batch.{
  BatchCalls, prepare_bulk_transfer_request, execute_batch_transfer,
}
use payflow_backend.Transfers.Tally.{Yields, IsTallied, execute_batch_transfer-IsTallied}
use payflow_backend.Transfers.Books.{GivesInt64, BooksWork, execute_batch_transfer-IsGood}
use payflow_backend.Wallet.Reconciled.{IsGood}
use payflow_backend.Examples.Providers.{Paid, payments, clock, some_request, ready, quiet}
use payflow_backend.Examples.Batches.{plain_texts, three_transfers}
use payflow_backend.Examples.Wallets.{
  start, start-IsGood, funded, funded-AreStored, no_faults, works,
}

abbrev four_naira : Parsing
four_naira = record {
  parse_int = λ text. some (pos 4);
  rounded = λ text. some (pos 4);
  rounded_hundredfold = λ text. some (pos 400);
}

abbrev service : TransferService Paid
service = record {
  provider_manager = record {
    default_provider = ready;
    fallback_providers = [];
    all_providers = λ name. none;
  };
  has_wallet_service = true;
  config = record { min_amount = pos 1; max_amount = pos 100 };
  parsing = four_naira;
  now = clock;
}

abbrev calls : ExecuteCalls
calls = record {
  generated_reference = "TRF-7-1";
  admin_email = none;
  fallback_email = "business-7@payflow.local";
  check_fails = false;
  lock = no_faults;
  unlock = no_faults;
  create_fails = false;
  update_fails = false;
  withdrawal = works;
  transaction_id = "txn-1";
  fee_transaction_id = "txn-2";
}

abbrev ready_state : TransferState Paid
ready_state = record { wallet = funded; table = record { rows = []; next_id = 1 }; live = quiet }

execute_transfer-Safe_example :
    Safe service calls 7
      (prepared service calls 7 some_request)
      funded
      (execute_transfer service calls 7 some_request ready_state)
execute_transfer-Safe_example =
    execute_transfer-Safe service calls 7 refl (refl, refl, (refl, refl)) some_request ready_state
      funded-AreStored

honest : AreHonest payments service calls 7
honest = (((λ req w. refl), tt), λ name p h. absurd (cc))

execute_transfer-IsPrudent_example :
    IsPrudent payments service calls 7
      (prepared service calls 7 some_request)
      ready_state
      (execute_transfer service calls 7 some_request ready_state)
execute_transfer-IsPrudent_example =
    execute_transfer-IsPrudent payments service calls 7 some_request ready_state honest refl refl

abbrev batch_calls : BatchCalls
batch_calls = record {
  generated_batch_reference = "BATCH-7-1";
  generated_reference = λ i. "TRF-7-1";
  admin_email = none;
  fallback_email = "business-7@payflow.local";
  create_fails = false;
  update_fails = λ i. false;
  withdrawal = λ i. works;
  unlock = λ i. no_faults;
  transaction_id = λ i. "txn-1";
  fee_transaction_id = λ i. "txn-2";
  schedule = λ i. [];
}

execute_batch_transfer-IsTallied_example :
    Yields
      (λ r.
        IsTallied
          (prepare_bulk_transfer_request service plain_texts batch_calls 7 three_transfers)
          r.0)
      (execute_batch_transfer service plain_texts batch_calls 7 three_transfers ready_state)
execute_batch_transfer-IsTallied_example =
    execute_batch_transfer-IsTallied service plain_texts batch_calls 7 three_transfers ready_state
      tt

abbrev new_state : TransferState Paid
new_state = record { wallet = start; table = record { rows = []; next_id = 1 }; live = quiet }

int64 : GivesInt64 four_naira
int64 text a h = subst Fits (given h) (omega arith, omega arith)
  where
    given : ◌≡◌ {A = Option ℤ} (some (pos 400)) (some a) → pos 400 ≡ a
    given h = ap (λ o. from o) h
      where
        from : Option ℤ → ℤ
        from none = pos 0
        from (some d) = d

books : BooksWork service plain_texts batch_calls 7
books i = ((refl, refl), (refl, refl, refl, refl, refl), refl)

execute_batch_transfer-IsGood_example :
    Yields
      (λ r. IsGood r.1.wallet)
      (execute_batch_transfer service plain_texts batch_calls 7 three_transfers new_state)
execute_batch_transfer-IsGood_example =
    execute_batch_transfer-IsGood service plain_texts batch_calls 7 int64 books three_transfers
      new_state tt start-IsGood
