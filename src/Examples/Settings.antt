-- ===== src/Examples/Settings.antt =====
-- A setting under a cipher that keeps the text.
use payflow_backend.Common.{◌≡◌, refl, false, none, some, [], ◌∷◌, replicate}
use payflow_backend.Common.Errors.{ok}
use payflow_backend.Settings.Encryption.{Bytes, Cipher, IsLawful, encrypt}
use payflow_backend.Settings.Platform.{
  PlatformSettings, get_setting, set_setting, set_encrypted, upsert,
}
use payflow_backend.Settings.Stored.{Answers, get_setting-set_setting}

abbrev plain_cipher : Cipher
plain_cipher = record {
  nonce_size = 2;
  seal = λ key nonce plaintext. plaintext;
  unseal = λ key nonce ciphertext. some ciphertext;
  encode_base64 = λ bytes. bytes;
  decode_base64 = λ bytes. some bytes;
}

plain-IsLawful : IsLawful plain_cipher
plain-IsLawful = ((λ key nonce plaintext. refl), λ bytes. refl)

abbrev some_key : Bytes
some_key = replicate 32 7

abbrev no_settings : PlatformSettings
no_settings key = none

set_works :
    (set_setting plain_cipher some_key
      (some (1 ∷ 2 ∷ []))
      false
      "smtp_host"
      (104 ∷ 105 ∷ [])
      ""
      ""
      no_settings).0
    ≡ ok tt
unfolding set_setting set_encrypted upsert encrypt
set_works = refl

get_setting-set_setting_example :
    Answers plain_cipher some_key plain-IsLawful (1 ∷ 2 ∷ []) (104 ∷ 105 ∷ []) refl false (
      get_setting plain_cipher some_key false "smtp_host"
        (set_setting plain_cipher some_key
          (some (1 ∷ 2 ∷ []))
          false
          "smtp_host"
          (104 ∷ 105 ∷ [])
          ""
          ""
          no_settings).1)
get_setting-set_setting_example =
    get_setting-set_setting plain_cipher some_key plain-IsLawful (1 ∷ 2 ∷ []) (104 ∷ 105 ∷ []) refl
      false "smtp_host" "" "" no_settings set_works
