-- ===== src/Transfers/References.antt =====
-- The references of a batch stay in their order from the request to the responses.
use Prim.Native.String.{String}
use payflow_backend.Common.{
  ◌≡◌, refl, ap, ◌∙◌, inl, inr, Bool, true, false, Option, none, some, List, [], ◌∷◌, map,
  Bool-cases,
}
use payflow_backend.Common.Errors.{Result, ok, err}
use payflow_backend.Transfers.Types.{
  SingleTransferRequest, TransferResult, Transfer, SingleTransferResponse, BulkTransferResult,
}
use payflow_backend.Transfers.Prepare.{pending_transfer}
use payflow_backend.Transfers.Responses.{response_found, response_for}
use payflow_backend.Transfers.Table.{
  TransferTable, is_taken, create, with_first, then_others, create_all, committed, create_batch,
}

abbrev pub references : List SingleTransferRequest → List String
references [] = []
references (r ∷ rs) = r.reference ∷ references rs

abbrev pub row_references : List Transfer → List String
row_references [] = []
row_references (t ∷ ts) = t.reference ∷ row_references ts

abbrev pub response_references : List SingleTransferResponse → List String
response_references [] = []
response_references (r ∷ rs) = r.reference ∷ response_references rs

pub pending-references :
    (rs : List SingleTransferRequest) → row_references (map pending_transfer rs) ≡ references rs
pending-references [] = refl
pending-references (r ∷ rs) = ap (λ refs. r.reference ∷ refs) (pending-references rs)

-- The rows that an insert of some rows returns have their references.
abbrev Returned : List Transfer → Result (List Transfer) × TransferTable → Type 0
Returned ts (ok ts', table) = row_references ts' ≡ row_references ts
Returned ts (err e, table) = Unit

abbrev ReturnedOne : Transfer → Result Transfer × TransferTable → Type 0
ReturnedOne t (ok t', table) = t'.reference ≡ t.reference
ReturnedOne t (err e, table) = Unit

create-ReturnedOne : (t : Transfer) (table : TransferTable) → ReturnedOne t (create false t table)
unfolding create
create-ReturnedOne t table = elim (Bool-cases (is_taken t.reference table.rows)) [
  | inl q ↦ rw q tt
  | inr q ↦ rw q refl
]

with_first-Returned :
    (t t' : Transfer) (ts : List Transfer) (r : Result (List Transfer) × TransferTable)
    → t'.reference ≡ t.reference
    → Returned ts r
    → Returned (t ∷ ts) (with_first t' r)
with_first-Returned t t' ts (err e, table) h k = tt
with_first-Returned t t' ts (ok ts', table) h k = rw h (rw k refl)

then_others-Returned :
    (t : Transfer) (ts : List Transfer) (r : Result Transfer × TransferTable)
    (next : TransferTable → Result (List Transfer) × TransferTable)
    → ReturnedOne t r
    → ((table : TransferTable) → Returned ts (next table))
    → Returned (t ∷ ts) (then_others r next)
then_others-Returned t ts (err e, table) next h k = tt
then_others-Returned t ts (ok t', table) next h k =
    with_first-Returned t t' ts (next table) h (k table)

create_all-Returned :
    (ts : List Transfer) (table : TransferTable) → Returned ts (create_all ts table)
unfolding create_all
create_all-Returned [] table = refl
create_all-Returned (t ∷ ts) table =
    then_others-Returned t ts (create false t table) (λ table'. create_all ts table')
      (create-ReturnedOne t table) (λ table'. create_all-Returned ts table')

committed-references :
    (ts : List Transfer) (table : TransferTable) (r : Result (List Transfer) × TransferTable)
    → Returned ts r
    → row_references (committed ts table r).0 ≡ row_references ts
unfolding committed
committed-references ts table (err e, table') h = refl
committed-references ts table (ok ts', table') h = h

pub create_batch-references :
    (fails : Bool) (ts : List Transfer) (table : TransferTable)
    → row_references (create_batch fails ts table).0 ≡ row_references ts
unfolding create_batch
create_batch-references true ts table = refl
create_batch-references false ts table =
    committed-references ts table (create_all ts table) (create_all-Returned ts table)

response_found-reference :
    (result : BulkTransferResult) (t : Transfer) (o : Option TransferResult)
    → (response_found result t o).reference ≡ t.reference
response_found-reference result t none = refl
response_found-reference result t (some x) = refl

pub responses-references :
    (result : BulkTransferResult) (ts : List Transfer)
    → response_references (map (response_for result) ts) ≡ row_references ts
unfolding response_for
responses-references result [] = refl
responses-references result (t ∷ ts) =
    ap (λ ref. ref ∷ response_references (map (response_for result) ts))
      (response_found-reference result t _)
    ∙ ap (λ refs. t.reference ∷ refs) (responses-references result ts)
