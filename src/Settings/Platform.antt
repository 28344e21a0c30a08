-- ===== src/Settings/Platform.antt =====
-- internal/service/platform_settings_service.go and
-- internal/repository/postgres/platform_setting_repo.go. A deleted row keeps its key: `Delete` sets
-- the column deleted_at, which lookups test and `Upsert` does not touch.
use Prim.Native.String.{String}
use payflow_backend.Common.{Bool, true, false, Option, none, some, not, if◌then◌else◌}
use payflow_backend.Common.Errors.{Error, Result, ok, err, guard_not, ◌>>=◌, ◌>>◌}
use payflow_backend.Common.Texts.{same_text}
use payflow_backend.Settings.Encryption.{Bytes, Cipher, encrypt, decrypt}

pub record PlatformSetting : Type 0 where
  pub encrypted_value : Bytes
  pub description : String
  pub category : String
  pub is_set : Bool
  pub is_deleted : Bool

-- One row for each key, by the unique constraint.
abbrev pub PlatformSettings : Type 0
PlatformSettings = String → Option PlatformSetting

abbrev pub write : String → PlatformSetting → PlatformSettings → PlatformSettings
write key row table key' = if same_text key' key then some row else table key'

-- The row that an upsert leaves: the columns of the conflict clause are assigned.
abbrev pub upserted : Option PlatformSetting → PlatformSetting → PlatformSetting
upserted none row = row
upserted (some old) row = record row { is_deleted = old.is_deleted }

-- `Upsert`
unfoldable pub upsert :
    (fails : Bool)
    → String
    → PlatformSetting
    → PlatformSettings
    → Result (Unit {0}) × PlatformSettings
upsert true key row table = (err Error.other, table)
upsert false key row table = (ok tt, write key (upserted (table key) row) table)

abbrev pub visible : Option PlatformSetting → Result PlatformSetting
visible none = err Error.not_found
visible (some row) = if row.is_deleted then err Error.not_found else ok row

-- `FindByKey`
unfoldable pub find_by_key : (fails : Bool) → String → PlatformSettings → Result PlatformSetting
find_by_key true key table = err Error.other
find_by_key false key table = visible (table key)

abbrev pub deleted : Option PlatformSetting → PlatformSettings → String → PlatformSettings
deleted none table key = table
deleted (some row) table key = write key (record row { is_deleted = true }) table

-- `Delete`; `DeleteSetting` calls it.
unfoldable pub delete :
    (fails : Bool) → String → PlatformSettings → Result (Unit {0}) × PlatformSettings
delete true key table = (err Error.other, table)
delete false key table = (ok tt, deleted (table key) table key)

module _ (c : Cipher) (encryption_key : Bytes) where
  abbrev pub new_row : Bytes → (description category : String) → PlatformSetting
  new_row encrypted description category = record {
    encrypted_value = encrypted;
    description = description;
    category = category;
    is_set = true;
    is_deleted = false;
  }

  unfoldable pub set_encrypted :
      (fails : Bool)
      → String
      → (description category : String) → Result Bytes
      → PlatformSettings
      → Result (Unit {0}) × PlatformSettings
  unfolding upsert
  set_encrypted fails key description category (err e) table = (err e, table)
  set_encrypted fails key description category (ok text) table =
      upsert fails key (new_row text description category) table

  -- `SetSetting`
  unfoldable pub set_setting :
      (random : Option Bytes)
      → (fails : Bool) → (key : String) → (value : Bytes) → (description category : String)
      → PlatformSettings
      → Result (Unit {0}) × PlatformSettings
  unfolding set_encrypted encrypt
  set_setting random fails key value description category table =
      set_encrypted fails key description category (encrypt c random value encryption_key) table

  -- `GetSetting`
  unfoldable pub get_setting : (fails : Bool) → String → PlatformSettings → Result Bytes
  unfolding find_by_key decrypt
  get_setting fails key table = find_by_key fails key table >>= λ row.
      guard_not (not row.is_set) Error.other >> decrypt c row.encrypted_value encryption_key
