-- ===== src/Crypto/Media/Contexts.antt =====
-- The nonce and the authenticated context of a chunk: they name its place in the file.
use wa_logger.Base.{
  ℕ, ◌<◌, ◌^◌, ◌≡◌, ◌↔◌, refl, sym, ap, ◌∙◌, Bool, [], ◌∷◌, ◌++◌, arith, length, drop,
  drop-append_length, if◌then◌else◌,
}
use wa_logger.Crypto.Gcm.{Buffer}
use wa_logger.Base.Text.{codes}
use wa_logger.Crypto.Bytes.{be32, read_be32-be32, read_be32, hex, decimal}
use wa_logger.Crypto.Media.{chunk_nonce, chunk_aad}

append_cancel : (xs ys zs : Buffer) → xs ++ ys ≡ xs ++ zs → ys ≡ zs
append_cancel xs ys zs e =
    sym (drop-append_length (length xs) xs ys refl)
    ∙ ap (drop (length xs)) e
    ∙ drop-append_length (length xs) xs zs refl

be32_injective : (i j : ℕ) → i < 2 ^ 32 → j < 2 ^ 32 → be32 i ≡ be32 j → i ≡ j
unfolding be32
be32_injective i j hi hj e =
    sym (read_be32-be32 i [] hi) ∙ ap (λ l. read_be32 (l ++ [])) e ∙ read_be32-be32 j [] hj

flag_injective :
    (rest : Buffer) (a b : Bool)
    → ((if a then 49 else 48) ∷ rest) ≡ ((if b then 49 else 48) ∷ rest)
    → a ≡ b
flag_injective rest a b e = ground arith

-- With the index the same, only the flag is left.
aad_flag :
    (raw file_id : Buffer) (i : ℕ) (a b : Bool)
    → chunk_aad raw file_id i a ≡ chunk_aad raw file_id i b
    → a ≡ b
unfolding chunk_aad
aad_flag raw file_id i a b e =
    let tail = λ (f : Bool). (if f then 49 else 48) ∷ (codes "|" ++ raw) in
    let e1 = append_cancel (codes "wal/v1|media|") _ _ e in
    let e2 = append_cancel (hex file_id) _ _ e1 in
    let e3 = append_cancel (codes "|") _ _ e2 in
    let e4 = append_cancel (decimal i) _ _ e3 in
    flag_injective (codes "|" ++ raw) a b (append_cancel (codes "|") (tail a) (tail b) e4)

-- No two of the first 2^32 chunks of a file have the same nonce, and the context of a chunk as the final one is not
-- its context as a chunk with more behind it.
pub chunk_context_injective :
    (raw file_id prefix : Buffer) (i j : ℕ) (a b : Bool)
    → i < 2 ^ 32
    → j < 2 ^ 32
    → ((chunk_nonce prefix i ≡ chunk_nonce prefix j) ↔ (i ≡ j))
      × ((chunk_aad raw file_id i a ≡ chunk_aad raw file_id i b) ↔ (a ≡ b))
unfolding chunk_nonce
chunk_context_injective raw file_id prefix i j a b hi hj = (
  (
    λ en. be32_injective i j hi hj (append_cancel prefix (be32 i) (be32 j) en),
    ap (chunk_nonce prefix),
  ),
  (aad_flag raw file_id i a b, ap (chunk_aad raw file_id i)),
)
