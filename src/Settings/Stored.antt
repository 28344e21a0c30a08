-- ===== src/Settings/Stored.antt =====
-- What a setting gives back after it was stored.
use Prim.Native.String.{String}
use payflow_backend.Common.{◌≡◌, refl, ap, ◌∙◌, Bool, true, false, Option, none, some, not, length}
use payflow_backend.Common.Errors.{Error, Result, ok, err, guard_not, ◌>>=◌, ◌>>◌}
use payflow_backend.Common.Texts.{same_text, same_text_iff}
use payflow_backend.Settings.Encryption.{Bytes, Cipher, IsLawful, encrypt, decrypt, decrypt-encrypt}
use payflow_backend.Settings.Platform.{
  PlatformSetting, PlatformSettings, upserted, upsert, visible, find_by_key, new_row, set_encrypted,
  set_setting, get_setting,
}

-- The key has a row that was deleted.
abbrev pub was_deleted : Option PlatformSetting → Bool
was_deleted none = false
was_deleted (some row) = row.is_deleted

module _ (c : Cipher) (encryption_key : Bytes) (lawful : IsLawful c) (nonce value : Bytes)
    (size : length nonce ≡ c.nonce_size) where
  -- The answer that a stored setting should give.
  abbrev pub Answers : Bool → Result Bytes → Type 0
  Answers true r = r ≡ err Error.not_found
  Answers false r = r ≡ ok value

  upserted-deleted :
      (o : Option PlatformSetting) (row : PlatformSetting)
      → row.is_deleted ≡ false
      → (upserted o row).is_deleted ≡ was_deleted o
  upserted-deleted none row h = h
  upserted-deleted (some old) row h = refl

  read_row :
      (row : PlatformSetting) (hidden : Bool)
      → row.is_deleted ≡ hidden
      → row.is_set ≡ true
      → decrypt c row.encrypted_value encryption_key ≡ ok value
      → Answers hidden (
          visible (some row) >>= λ r.
          guard_not (not r.is_set) Error.other >> decrypt c r.encrypted_value encryption_key)
  read_row row true h s d = rw h refl
  read_row row false h s d = rw h (rw s d)

  same_text_refl : (s : String) → same_text s s ≡ true
  same_text_refl s = (same_text_iff s s).1 refl

  upserted-set :
      (o : Option PlatformSetting) (row : PlatformSetting)
      → ((upserted o row).is_set ≡ row.is_set)
        × ((upserted o row).encrypted_value ≡ row.encrypted_value)
  upserted-set none row = (refl, refl)
  upserted-set (some old) row = (refl, refl)

  stored :
      (key description category : String) (text : Bytes) (table : PlatformSettings)
      → decrypt c text encryption_key ≡ ok value
      → Answers (was_deleted (table key)) (
          get_setting c encryption_key false key
            (upsert false key (new_row c encryption_key text description category) table).1)
  unfolding get_setting find_by_key upsert
  stored key description category text table h =
      let row = new_row c encryption_key text description category in
      let (on, same) = upserted-set (table key) row in
      rw (same_text_refl key) (
        read_row (upserted (table key) row) (was_deleted (table key))
          (upserted-deleted (table key) row refl) on
          (ap (λ t. decrypt c t encryption_key) same ∙ h))

  encrypted :
      (r : Result Bytes) (fails : Bool) (key description category : String)
      (table : PlatformSettings)
      → encrypt c (some nonce) value encryption_key ≡ r
      → (set_encrypted c encryption_key fails key description category r table).0 ≡ ok tt
      → Answers (was_deleted (table key)) (
          get_setting c encryption_key false key
            (set_encrypted c encryption_key fails key description category r table).1)
  unfolding set_encrypted upsert
  encrypted (err e) fails key description category table h k = absurd (cc)
  encrypted (ok text) true key description category table h k = absurd (cc)
  encrypted (ok text) false key description category table h k =
      stored key description category text table
        (decrypt-encrypt c value encryption_key lawful nonce text size h)

  -- After a `SetSetting` that returned no error, `GetSetting` of that key, when its lookup works,
  -- returns the value that was set, if the key had no deleted row; and it finds nothing if the key had
  -- been deleted before. Opening undoes sealing, decoding undoes encoding, and the nonce that was read
  -- has the cipher's size.
  pub get_setting-set_setting :
      (fails : Bool) (key description category : String) (table : PlatformSettings)
      → (set_setting c encryption_key (some nonce) fails key value description category table).0
        ≡ ok tt
      → Answers (was_deleted (table key)) (
          get_setting c encryption_key false key
            (set_setting c encryption_key
              (some nonce)
              fails
              key
              value
              description
              category
              table).1)
  unfolding set_setting
  get_setting-set_setting fails key description category table h =
      encrypted (encrypt c (some nonce) value encryption_key) fails key description category table
        refl h
