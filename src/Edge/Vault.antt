-- ===== src/Edge/Vault.antt =====
-- DB.seal and DB.open of internal/sspedge/store.go. The AEAD that NewGCM returns is a parameter, and
-- the nonce that crypto/rand writes is an argument.
use snagline.Prelude.{
  ℕ, zero, suc, String, Option, none, some, [], ◌∷◌, ◌++◌, ◌≡◌, ◌<◌, ltb, if◌then◌else◌, length,
  take, Bytes, utf8,
}

-- cipher.AEAD
pub record Aead : Type 0 where
  pub nonce_size : ℕ
  -- nonce, plaintext, additional data
  pub seal_bytes : Bytes → Bytes → Bytes → Bytes
  -- nonce, ciphertext, additional data
  pub open_bytes : Bytes → Bytes → Bytes → Option Bytes

-- What the documentation of cipher.AEAD and of NewGCM promises: what was sealed is opened, and a nonce
-- has bytes.
pub record IsAead (aead : Aead) : Type 0 where
  pub sized : 0 < aead.nonce_size
  pub opens :
      (nonce plain data_bytes : Bytes)
      → length nonce ≡ aead.nonce_size
      → aead.open_bytes nonce (aead.seal_bytes nonce plain data_bytes) data_bytes ≡ some plain

-- xs[n:]
unfoldable pub drop : ℕ → Bytes → Bytes
drop zero xs = xs
drop (suc n) [] = []
drop (suc n) (x ∷ xs) = drop n xs

unfoldable pub additional_data : String → String → String → Bytes
additional_data table key tenant = utf8 table ++ (0 ∷ (utf8 key ++ (0 ∷ utf8 tenant)))

module _ (aead : Aead) (tenant : String) where
  unfoldable pub seal : Bytes → String → String → Bytes → Bytes
  seal nonce table key plain =
      nonce ++ aead.seal_bytes nonce plain (additional_data table key tenant)

  unfoldable pub open_sealed : String → String → Bytes → Option Bytes
  open_sealed table key ciphertext =
      if ltb (length ciphertext) aead.nonce_size
      then none
      else aead.open_bytes (take aead.nonce_size ciphertext) (drop aead.nonce_size ciphertext)
          (additional_data table key tenant)
