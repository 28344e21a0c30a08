-- ===== src/Transfers/Table.antt =====
-- internal/repository/postgres/transfer_repo.go: the table transfers, whose column `reference` is
-- unique, and whose ids the database gives from 1 on.
use Prim.Native.String.{String}
use payflow_backend.Common.{
  ℕ, ◌+◌, Bool, true, false, List, [], ◌∷◌, ◌++◌, ◌||◌, ◌==◌, if◌then◌else◌,
}
use payflow_backend.Common.Errors.{Error, Result, ok, err}
use payflow_backend.Common.Texts.{same_text}
use payflow_backend.Transfers.Types.{Transfer}

pub record TransferTable : Type 0 where
  pub rows : List Transfer
  pub next_id : ℕ

unfoldable pub is_taken : String → List Transfer → Bool
is_taken reference [] = false
is_taken reference (t ∷ ts) = same_text t.reference reference || is_taken reference ts

abbrev pub with_id : TransferTable → Transfer → Transfer
with_id table t = record t { id = table.next_id }

-- `Create`
unfoldable pub create : (fails : Bool) → Transfer → TransferTable → Result Transfer × TransferTable
unfolding is_taken
create true t table = (err Error.other, table)
create false t table = if is_taken t.reference table.rows then (err Error.conflict, table) else (
  ok (with_id table t),
  record { rows = table.rows ++ (with_id table t ∷ []); next_id = table.next_id + 1 },
)

abbrev pub replaced : Transfer → List Transfer → List Transfer
replaced t [] = []
replaced t (row ∷ rows) = (if row.id == t.id then t else row) ∷ replaced t rows

-- `Update` is GORM's `Save`: a row without an id is inserted.
unfoldable pub update : (fails : Bool) → Transfer → TransferTable → Result Transfer × TransferTable
unfolding create
update true t table = (err Error.other, table)
update false t table =
    if t.id == 0
    then create false t table
    else (ok t, record table { rows = replaced t table.rows })

-- `FindByID`
unfoldable pub find_by_id : (fails : Bool) → ℕ → TransferTable → Result Transfer
find_by_id true id table = err Error.other
find_by_id false id table = found table.rows
  where
    found : List Transfer → Result Transfer
    found [] = err Error.not_found
    found (row ∷ rows) = let rest = found rows in if row.id == id then ok row else rest

abbrev pub with_first :
    Transfer → Result (List Transfer) × TransferTable → Result (List Transfer) × TransferTable
with_first t (err e, table) = (err e, table)
with_first t (ok ts, table) = (ok (t ∷ ts), table)

abbrev pub then_others :
    Result Transfer × TransferTable
    → (TransferTable → Result (List Transfer) × TransferTable)
    → Result (List Transfer) × TransferTable
then_others (err e, table) next = (err e, table)
then_others (ok t, table) next = with_first t (next table)

unfoldable pub create_all : List Transfer → TransferTable → Result (List Transfer) × TransferTable
unfolding create
create_all [] table = (ok [], table)
create_all (t ∷ ts) table = then_others (create false t table) (λ table'. create_all ts table')

-- `CreateBatch`: one transaction; the records get the ids only if it commits.
unfoldable pub committed :
    List Transfer
    → TransferTable
    → Result (List Transfer) × TransferTable
    → List Transfer × TransferTable
committed ts table (err e, table') = (ts, table)
committed ts table (ok ts', table') = (ts', table')

unfoldable pub create_batch :
    (fails : Bool) → List Transfer → TransferTable → List Transfer × TransferTable
unfolding create_all committed
create_batch true ts table = (ts, table)
create_batch false ts table = committed ts table (create_all ts table)
