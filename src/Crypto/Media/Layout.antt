-- ===== src/Crypto/Media/Layout.antt =====
-- The layout that writer and reader share: where each sealed chunk stands in a file.
use wa_logger.Base.{
  ℕ, zero, suc, ◌+◌, ◌-◌, ◌*◌, ◌≤◌, ◌<◌, ◌≡◌, refl, sym, Bool, false, [], ◌++◌, arith, length, take,
  drop, ==_iff, Bool-cases, inl, inr, ◌==◌, length-append, length-take, length-drop,
  take-append_length, drop-append_length, drop-append_le, take-append_le, take_all, drop_all,
}
use mathlib.Core.List.{append_assoc, append-nil}
use wa_logger.Crypto.Gcm.{Buffer, Cipher, IsGcm}
use wa_logger.Crypto.Media.{write_at, chunk_nonce, chunk_aad}

-- What stays the same while one file is written.
pub record FileKeys : Type 0 where
  pub key : Buffer
  pub header : Buffer
  pub nonce_prefix : Buffer
  pub file_id : Buffer

module _ (c : Cipher) (chunk : ℕ) (f : FileKeys) where
  -- The sealed chunk number `i` as it stands in the file.
  abbrev pub sealed_chunk : ℕ → Bool → Buffer → Buffer
  sealed_chunk i final plain =
      c.encrypt f.key (chunk_nonce f.nonce_prefix i) (chunk_aad f.header f.file_id i final) plain

  -- Chunk number `i` of a plaintext.
  abbrev pub plain_chunk : ℕ → Buffer → Buffer
  plain_chunk i p = take chunk (drop (i * chunk) p)

  -- The first `n` chunks, sealed as chunks with more behind them.
  abbrev pub bodies : ℕ → Buffer → Buffer
  bodies zero p = []
  bodies (suc n) p = bodies n p ++ sealed_chunk n false (plain_chunk n p)

  module _ (g : IsGcm c) where
    pub length-sealed_chunk :
        (i : ℕ) (final : Bool) (p : Buffer) → length (sealed_chunk i final p) ≡ length p + 16
    length-sealed_chunk i final p =
        g.length-encrypt f.key (chunk_nonce f.nonce_prefix i) (chunk_aad f.header f.file_id i final)
          p

    pub length-bodies :
        (n : ℕ) (p : Buffer) → n * chunk ≤ length p → length (bodies n p) ≡ n * (chunk + 16)
    length-bodies zero p h = omega arith
    length-bodies (suc n) p h = omega (
      arith,
      length-append (bodies n p) (sealed_chunk n false (plain_chunk n p)),
      length-bodies n p (omega arith),
      length-sealed_chunk n false (plain_chunk n p),
      length-take chunk (drop (n * chunk) p),
      length-drop (n * chunk) p,
    )

    -- Reading where chunk `i` stands, among the first `n` and whatever follows them, gives chunk `i`.
    pub read-bodies :
        (n i : ℕ) (p rest : Buffer)
        → n * chunk ≤ length p
        → i < n
        → take (chunk + 16) (drop (i * (chunk + 16)) (bodies n p ++ rest))
          ≡ sealed_chunk i false (plain_chunk i p)
    read-bodies zero i p rest h lt = absurd (omega arith)
    read-bodies (suc n) i p rest h lt = elim (Bool-cases (i == n)) [
      | inl e ↦
          let e' : i ≡ n = (==_iff i n).0 e in
          rw
            (
              e',
              append_assoc (bodies n p) (sealed_chunk n false (plain_chunk n p)) rest,
              drop-append_length (n * (chunk + 16)) (bodies n p)
                  (sealed_chunk n false (plain_chunk n p) ++ rest)
                  (sym (length-bodies n p (omega arith))),
            )
            (take-append_length (chunk + 16) (sealed_chunk n false (plain_chunk n p)) rest (
              omega (
                arith,
                length-sealed_chunk n false (plain_chunk n p),
                length-take chunk (drop (n * chunk) p),
                length-drop (n * chunk) p,
              )))
      | inr ne ↦ rw append_assoc (
          read-bodies n i p (sealed_chunk n false (plain_chunk n p) ++ rest) (omega arith)
            (ground arith))
    ]

  -- More plaintext leaves the full chunks as they are.
  pub bodies-append :
      (n : ℕ) (p more : Buffer) → n * chunk ≤ length p → bodies n (p ++ more) ≡ bodies n p
  bodies-append zero p more h = refl
  bodies-append (suc n) p more h =
      let e : plain_chunk n (p ++ more) ≡ plain_chunk n p =
        rw (drop-append_le (n * chunk) p more (omega arith)) (
          take-append_le chunk (drop (n * chunk) p) more
            (omega (arith, length-drop (n * chunk) p))) in
      rw (bodies-append n p more (omega arith), e)

-- Writing at the end of a file appends.
pub write_at_end :
    (pos : ℕ) (bytes file : Buffer) → pos ≡ length file → write_at pos bytes file ≡ file ++ bytes
unfolding write_at
write_at_end pos bytes file e =
    let gap : pos - length file ≡ 0 = omega arith in
    rw (
      gap,
      take_all pos file (omega arith),
      drop_all (pos + length bytes) file (omega arith),
      append-nil,
    )
