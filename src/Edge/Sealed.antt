-- ===== src/Edge/Sealed.antt =====
-- What DB.seal writes, DB.open reads: internal/sspedge/store.go.
use snagline.Prelude.{
  ◌+◌, String, ◌≡◌, refl, false, some, [], ◌∷◌, ◌++◌, arith, eqb, length, take, Bytes,
}
use snagline.Edge.Vault.{Aead, IsAead, drop, seal, open_sealed, additional_data}

take-append : (xs ys : Bytes) → take (length xs) (xs ++ ys) ≡ xs
take-append [] ys = refl
take-append (x ∷ xs) ys = ground (arith, take-append xs ys)

drop-append : (xs ys : Bytes) → drop (length xs) (xs ++ ys) ≡ ys
unfolding drop
drop-append [] ys = refl
drop-append (x ∷ xs) ys = drop-append xs ys

length-append : (xs ys : Bytes) → length (xs ++ ys) ≡ length xs + length ys
length-append [] ys = omega arith
length-append (x ∷ xs) ys = ground (arith, length-append xs ys)

-- What is sealed for a table and a key with a nonce of the AEAD's size is opened for the same table and key,
-- when the AEAD opens what it seals.
pub open_sealed-seal :
    (aead : Aead) (tenant : String) (nonce : Bytes) (table key : String) (plain : Bytes)
    → IsAead aead
    → length nonce ≡ aead.nonce_size
    → open_sealed aead tenant table key (seal aead tenant nonce table key plain) ≡ some plain
unfolding open_sealed seal
open_sealed-seal aead tenant nonce table key plain sound size =
    let data_bytes = additional_data table key tenant in
    let cipher = aead.seal_bytes nonce plain data_bytes in
    ground (
      arith,
      length-append nonce cipher,
      take-append nonce cipher,
      drop-append nonce cipher,
      sound.opens nonce plain data_bytes size,
    )

pub length-seal :
    (aead : Aead) (tenant : String) (nonce : Bytes) (table key : String) (plain : Bytes)
    → IsAead aead
    → length nonce ≡ aead.nonce_size
    → eqb (length (seal aead tenant nonce table key plain)) 0 ≡ false
unfolding seal
length-seal aead tenant nonce table key plain sound size = ground (
  arith,
  length-append nonce (aead.seal_bytes nonce plain (additional_data table key tenant)),
  sound.sized,
)
