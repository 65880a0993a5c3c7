-- ===== src/Crypto/Media/Tests.antt =====
-- Runs of the media format under a cipher that adds a tag of zeros, and the theorems at them.
use wa_logger.Base.{
  ℕ, ◌-◌, ◌≡◌, ◌↔◌, refl, ap, true, false, List, [], ◌∷◌, ◌++◌, arith, Option, none, some, length,
  take, replicate, length-append, take-append_length, if◌then◌else◌, ◌==◌,
}
use wa_logger.Crypto.Gcm.{Buffer, Cipher, IsGcm}
use wa_logger.Crypto.Media.{
  OpenedMedia, open_media_file, decrypt_range, decrypt_all, concat, chunk_nonce, chunk_aad,
}
use wa_logger.Crypto.Media.Roundtrip.{store, decrypt_range-store, decrypt_all-store}
use wa_logger.Crypto.Media.Contexts.{chunk_context_injective}

abbrev zeros : Buffer
zeros = replicate 16 0

abbrev toy : Cipher
toy = record {
  encrypt = λ key nonce aad plain. plain ++ zeros;
  decrypt = λ key nonce aad sealed. some (take (length sealed - 16) sealed);
}

toy-IsGcm : IsGcm toy
toy-IsGcm = record {
  decrypt-encrypt = λ key nonce aad plain. ap some (
      take-append_length (length (plain ++ zeros) - 16) plain zeros
        (omega (arith, length-append plain zeros)));
  length-encrypt = λ key nonce aad plain. length-append plain zeros;
}

abbrev test_key : Buffer
test_key = replicate 32 7

abbrev test_id : Buffer
test_id = replicate 16 9

abbrev test_prefix : Buffer
test_prefix = replicate 8 5

-- Five bytes in three writes, with chunks of two bytes.
abbrev upload : List Buffer
upload = (1 ∷ 2 ∷ 3 ∷ []) ∷ [] ∷ (4 ∷ 5 ∷ []) ∷ []

decrypt_range-store_example :
    (file : Buffer) × (media : OpenedMedia) × (parts : List Buffer) × (store toy 2 test_key 11
        test_id test_prefix upload
      ≡ some (some file, 5))
    × (open_media_file 2 file ≡ some media)
    × (media.header.key_id ≡ 11)
    × (media.size ≡ 5)
    × (decrypt_range toy 2 media test_key 1 3 ≡ some parts)
    × (concat parts ≡ 2 ∷ 3 ∷ 4 ∷ [])
decrypt_range-store_example =
    decrypt_range-store toy 2 toy-IsGcm (omega arith) test_key 11 test_id test_prefix refl refl refl
      upload 1 3 (omega arith) (omega arith) (omega arith)

abbrev known_key : ℕ → Option Buffer
known_key id = if id == 11 then some test_key else none

decrypt_all-store_example :
    (file : Buffer) × (store toy 2 test_key 11 test_id test_prefix upload ≡ some (some file, 5))
    × (decrypt_all toy 2 file known_key ≡ some (1 ∷ 2 ∷ 3 ∷ 4 ∷ 5 ∷ []))
decrypt_all-store_example =
    decrypt_all-store toy 2 toy-IsGcm (omega arith) test_key 11 test_id test_prefix refl refl refl
      upload known_key (omega arith) refl

chunk_context_injective_example :
    ((chunk_nonce test_prefix 3 ≡ chunk_nonce test_prefix 4) ↔ (◌≡◌ {A = ℕ} 3 4))
    × ((chunk_aad test_key test_id 3 false ≡ chunk_aad test_key test_id 3 true) ↔ (false ≡ true))
chunk_context_injective_example =
    chunk_context_injective test_key test_id test_prefix 3 4 false true (omega arith) (omega arith)
