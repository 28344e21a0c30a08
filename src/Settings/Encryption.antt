-- ===== src/Settings/Encryption.antt =====
-- pkg/utils/encryption.go: AES-256-GCM with the nonce before the sealed text, in base64. The packages
-- crypto and base64 are the parameter `Cipher`; a byte is a number, and a Go string its bytes.
use payflow_backend.Common.{
  ℕ, ◌+◌, ◌≡◌, refl, sym, ap, ◌∙◌, Bool, true, false, not, Option, none, some, List, [], ◌∷◌, ◌++◌,
  ltb, ◌==◌, length, take, drop, length-append, arith,
}
use payflow_backend.Common.Errors.{Error, Result, ok, err, guard_not, ◌>>=◌, ◌>>◌, ok≢err}

abbrev pub Bytes : Type 0
Bytes = List ℕ

pub record Cipher : Type 0 where
  pub nonce_size : ℕ
  pub seal : (key nonce plaintext : Bytes) → Bytes
  pub unseal : (key nonce ciphertext : Bytes) → Option Bytes
  pub encode_base64 : Bytes → Bytes
  pub decode_base64 : Bytes → Option Bytes

abbrev pub or_err : {A : Type 0} → Option A → Result A
or_err none = err Error.other
or_err (some a) = ok a

ok-inj : {A : Type 0} {a b : A} → ◌≡◌ {A = Result A} (ok a) (ok b) → a ≡ b
ok-inj {A} {a} h = ap (λ r. from r) h
  where
    from : Result A → A
    from (err e) = a
    from (ok x) = x

module _ (c : Cipher) where
  -- What is encoded: the nonce and the sealed text.
  abbrev pub sealed : (plaintext key nonce : Bytes) → Bytes
  sealed plaintext key nonce = c.encode_base64 (nonce ++ c.seal key nonce plaintext)

  -- `Encrypt`; `random` is the nonce that was read, if the read succeeds.
  unfoldable pub encrypt : (random : Option Bytes) → (plaintext key : Bytes) → Result Bytes
  encrypt random plaintext key =
      guard_not (not (length key == 32)) Error.other
      >> (or_err random >>= λ nonce. ok (sealed plaintext key nonce))

  -- The checks on the decoded text.
  unfoldable pub unsealed : (key ciphertext : Bytes) → Result Bytes
  unsealed key ciphertext =
      guard_not (ltb (length ciphertext) c.nonce_size) Error.other
      >> or_err (c.unseal key (take c.nonce_size ciphertext) (drop c.nonce_size ciphertext))

  -- `Decrypt`
  unfoldable pub decrypt : (text : Bytes) → (key : Bytes) → Result Bytes
  unfolding unsealed
  decrypt text key =
      guard_not (not (length key == 32)) Error.other
      >> (or_err (c.decode_base64 text) >>= λ ciphertext. unsealed key ciphertext)

  -- What the packages promise: opening undoes sealing, and decoding undoes encoding.
  abbrev pub IsLawful : Type 0
  IsLawful =
      ((key nonce plaintext : Bytes)
        → c.unseal key nonce (c.seal key nonce plaintext) ≡ some plaintext)
      × ((bytes : Bytes) → c.decode_base64 (c.encode_base64 bytes) ≡ some bytes)

  take_all : (xs ys : Bytes) → take (length xs) (xs ++ ys) ≡ xs
  take_all [] ys = refl
  take_all (x ∷ xs) ys = ap (λ zs. x ∷ zs) (take_all xs ys)

  drop_all : (xs ys : Bytes) → drop (length xs) (xs ++ ys) ≡ ys
  drop_all [] ys = refl
  drop_all (x ∷ xs) ys = drop_all xs ys

  unsealed-seal :
      (plaintext key nonce : Bytes)
      → IsLawful
      → length nonce ≡ c.nonce_size
      → unsealed key (nonce ++ c.seal key nonce plaintext) ≡ ok plaintext
  unfolding unsealed
  unsealed-seal plaintext key nonce lawful size =
      let long : ltb (length (nonce ++ c.seal key nonce plaintext)) c.nonce_size ≡ false =
        covers (length nonce) (length (c.seal key nonce plaintext)) c.nonce_size
          (length (nonce ++ c.seal key nonce plaintext)) size
          (length-append nonce (c.seal key nonce plaintext)) in
      let first =
        ap (λ n. take n (nonce ++ c.seal key nonce plaintext)) (sym size)
        ∙ take_all nonce (c.seal key nonce plaintext) in
      let rest =
        ap (λ n. drop n (nonce ++ c.seal key nonce plaintext)) (sym size)
        ∙ drop_all nonce (c.seal key nonce plaintext) in
      rw long (rw first (rw rest (rw (lawful.0 key nonce plaintext) refl)))
    where
      covers : (a b n m : ℕ) → a ≡ n → m ≡ a + b → ltb m n ≡ false
      covers a b n m h k = ground arith

  module _ (plaintext key : Bytes) (lawful : IsLawful) where
    opened :
        (nonce : Bytes)
        → length nonce ≡ c.nonce_size
        → (length key == 32) ≡ true
        → decrypt (sealed plaintext key nonce) key ≡ ok plaintext
    unfolding decrypt
    opened nonce size long = rw long (
        rw (lawful.1 (nonce ++ c.seal key nonce plaintext))
          (unsealed-seal plaintext key nonce lawful size))

    encrypted_with :
        (nonce : Bytes) (text : Bytes) (long : Bool)
        → (length key == 32) ≡ long
        → length nonce ≡ c.nonce_size
        → (guard_not (not long) Error.other >> ok (sealed plaintext key nonce)) ≡ ok text
        → decrypt text key ≡ ok plaintext
    encrypted_with nonce text true q size h =
        ap (λ t. decrypt t key) (sym (ok-inj h)) ∙ opened nonce size q
    encrypted_with nonce text false q size h = absurd (ok≢err (sym h))

    -- What `Encrypt` returns for a nonce of the cipher's size, `Decrypt` turns back into the
    -- plaintext with the same key, if opening undoes sealing and decoding undoes encoding. The key has
    -- 32 bytes, or `Encrypt` returns an error.
    pub decrypt-encrypt :
        (nonce : Bytes) (text : Bytes)
        → length nonce ≡ c.nonce_size
        → encrypt (some nonce) plaintext key ≡ ok text
        → decrypt text key ≡ ok plaintext
    unfolding encrypt
    decrypt-encrypt nonce text size h = encrypted_with nonce text (length key == 32) refl size h
