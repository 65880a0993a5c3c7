-- ===== src/Crypto/Media/Reading.antt =====
-- Reading a stored file back: the size, one chunk, and a range.
use wa_logger.Base.{
  ℕ, zero, suc, ◌+◌, ◌-◌, ◌*◌, ◌/◌, ◌≤◌, ◌<◌, ◌≡◌, refl, sym, ap, ◌∙◌, true, List, [], ◌∷◌, ◌++◌,
  arith, length, take, drop, Bool-cases, inl, inr, ◌==◌, ==_iff, ◌⊎◌, some, if◌then◌else◌,
  length-append, length-take, length-drop, take_all, take-append_length, drop-append_length,
  drop-drop, take-take, drop-take, take-add,
}
use mathlib.Core.List.{append_assoc, append-nil}
use native.Mathlib.Nat.{le_trans, le_refl, lt-div-mul-add, div-mul-le_self}
use wa_logger.Crypto.Gcm.{Buffer, Cipher, IsGcm, open_gcm-nonce}
use wa_logger.Crypto.Bytes.{be32}
use wa_logger.Crypto.Media.{
  MediaHeader, OpenedMedia, chunk_nonce, chunk_aad, parse_header, plaintext_size_from_file_size,
  open_media_file, decrypt_chunk, decrypt_chunks, concat,
}
use wa_logger.Crypto.Media.Layout.{
  FileKeys, sealed_chunk, plain_chunk, bodies, length-bodies, length-sealed_chunk, read-bodies,
}

div_unique : (q e s : ℕ) → s < e → (q * e + s) / e ≡ q
div_unique q e s h = grind arith

module _ (c : Cipher) (chunk : ℕ) (f : FileKeys) where
  -- The bytes of a file with `n` full chunks before the final one.
  abbrev pub stored_file : ℕ → Buffer → Buffer
  stored_file n p =
      (f.header ++ bodies c chunk f n p) ++ sealed_chunk c chunk f n true (drop (n * chunk) p)

  -- `n` chunks are full, and the final one is empty only if the file is.
  pub record IsSplit (n : ℕ) (p : Buffer) : Type 0 where
    pub full : n * chunk ≤ length p
    pub rest_fits : length p ≤ n * chunk + chunk
    pub rest_left : (n ≡ 0) ⊎ (n * chunk < length p)
    pub key_size : length f.key ≡ 32
    pub header_size : length f.header ≡ 33
    pub prefix_size : length f.nonce_prefix ≡ 8

  module _ (g : IsGcm c) (pos : 0 < chunk) where
    length-stored_file :
        (n : ℕ) (p : Buffer)
        → IsSplit n p
        → length (stored_file n p) ≡ 33 + n * (chunk + 16) + (length p - n * chunk) + 16
    length-stored_file n p h = omega (
      arith,
      length-append (f.header ++ bodies c chunk f n p)
          (sealed_chunk c chunk f n true (drop (n * chunk) p)),
      length-append f.header (bodies c chunk f n p),
      length-bodies c chunk f g n p h.full,
      length-sealed_chunk c chunk f g n true (drop (n * chunk) p),
      length-drop (n * chunk) p,
      h.header_size,
    )

    -- The size that is read off the length of the file is the plaintext's.
    pub size_of_stored_file :
        (n : ℕ) (p : Buffer)
        → IsSplit n p
        → plaintext_size_from_file_size chunk (length (stored_file n p)) ≡ some (length p)
    unfolding plaintext_size_from_file_size
    size_of_stored_file n p h =
        let rest = length p - n * chunk in
        let body : length (stored_file n p) - 33 ≡ n * (chunk + 16) + rest + 16 =
          omega (arith, length-stored_file n p h) in
        let chunks : (n * (chunk + 16) + rest + 16 + (chunk + 16 - 1)) / (chunk + 16) ≡ n + 1 =
          ap (λ k. k / (chunk + 16)) (omega (arith, h.full, h.rest_fits, pos))
          ∙ div_unique (n + 1) (chunk + 16) (rest + 15) (omega (arith, h.full, h.rest_fits, pos)) in
        rw (body, chunks) (ground (arith, h.full))

    -- What `openMediaFile` returns for such a file, if its header parses to `h`.
    abbrev pub opened : MediaHeader → ℕ → Buffer → OpenedMedia
    opened h n p = record { header = h; size = length p; file = stored_file n p }

    pub open_stored_file :
        (h : MediaHeader) (n : ℕ) (p : Buffer)
        → IsSplit n p
        → parse_header f.header ≡ some h
        → open_media_file chunk (stored_file n p) ≡ some (opened h n p)
    unfolding open_media_file
    open_stored_file h n p s e =
        let front : take 33 (stored_file n p) ≡ f.header =
          ap (take 33) (
            append_assoc f.header (bodies c chunk f n p)
              (sealed_chunk c chunk f n true (drop (n * chunk) p)))
          ∙ take-append_length 33 f.header
              (bodies c chunk f n p ++ sealed_chunk c chunk f n true (drop (n * chunk) p))
              (sym s.header_size) in
        ground (arith, front, e, size_of_stored_file n p s, length-stored_file n p s)

    -- What stands behind the header.
    drop-stored_file :
        (n k : ℕ) (p : Buffer)
        → IsSplit n p
        → drop (33 + k) (stored_file n p)
          ≡ drop k (bodies c chunk f n p ++ sealed_chunk c chunk f n true (drop (n * chunk) p))
    drop-stored_file n k p s =
        ap (drop (33 + k)) (
          append_assoc f.header (bodies c chunk f n p)
            (sealed_chunk c chunk f n true (drop (n * chunk) p)))
        ∙ sym (
            drop-drop 33 k (
              f.header
              ++ (bodies c chunk f n p ++ sealed_chunk c chunk f n true (drop (n * chunk) p))))
        ∙ ap (drop k) (
            drop-append_length 33 f.header
              (bodies c chunk f n p ++ sealed_chunk c chunk f n true (drop (n * chunk) p))
              (sym s.header_size))

    some_rest : (n : ℕ) (p : Buffer) → IsSplit n p → 0 < length p → n * chunk < length p
    some_rest n p s l = elim s.rest_left [ inl z ↦ rw z (omega arith) | inr m ↦ m ]

    -- The index of the final chunk, as the reader computes it.
    last_index : (n : ℕ) (p : Buffer) → IsSplit n p → 0 < length p → (length p - 1) / chunk ≡ n
    last_index n p s l =
        ap (λ k. k / chunk) (omega (arith, some_rest n p s l))
        ∙ div_unique n chunk (length p - 1 - n * chunk)
            (omega (arith, s.rest_fits, some_rest n p s l))

    -- The sealed bytes that the reader finds for chunk `i`.
    pub read_chunk :
        (n i : ℕ) (p : Buffer)
        → IsSplit n p
        → i ≤ n
        → take
            ((if i == n then length p - i * chunk else chunk) + 16)
            (drop (33 + i * (chunk + 16)) (stored_file n p))
          ≡ sealed_chunk c chunk f i (i == n) (plain_chunk c chunk f i p)
    read_chunk n i p s le =
        rw (drop-stored_file n (i * (chunk + 16)) p s) (elim (Bool-cases (i == n)) [
          | inl e ↦
              let e' : i ≡ n = (==_iff i n).0 e in
              rw e (
                rw
                  (
                    e',
                    take_all chunk (drop (n * chunk) p)
                        (omega (arith, length-drop (n * chunk) p, s.rest_fits)),
                    drop-append_length (n * (chunk + 16)) (bodies c chunk f n p)
                        (sealed_chunk c chunk f n true (drop (n * chunk) p))
                        (sym (length-bodies c chunk f g n p s.full)),
                  )
                  (take_all (length p - n * chunk + 16)
                    (sealed_chunk c chunk f n true (drop (n * chunk) p))
                    (omega (
                      arith,
                      length-sealed_chunk c chunk f g n true (drop (n * chunk) p),
                      length-drop (n * chunk) p,
                    ))))
          | inr ne ↦ rw ne (
              read-bodies c chunk f g n i p (sealed_chunk c chunk f n true (drop (n * chunk) p))
                s.full (ground arith))
        ])

    next_chunk : (n i : ℕ) (p : Buffer) → IsSplit n p → i < n → i * chunk + chunk ≤ length p
    next_chunk n i p s lt = le_trans (grind arith) s.full

    -- Where a range starts and ends within chunk `i`, by the code's tests.
    abbrev pub from_of : ℕ → ℕ → ℕ
    from_of start i = if i == start / chunk then start - i * chunk else 0

    abbrev pub to_of : ℕ → ℕ → ℕ → ℕ
    to_of end i whole = if i == end / chunk then end - i * chunk + 1 else whole

    pub length-nonce :
        (i : ℕ) {n : ℕ} {p : Buffer} → IsSplit n p → length (chunk_nonce f.nonce_prefix i) ≡ 12
    unfolding chunk_nonce be32
    length-nonce i s = omega (arith, length-append f.nonce_prefix (be32 i), s.prefix_size)

    pub length-read :
        (n i : ℕ) (p : Buffer)
        → IsSplit n p
        → i ≤ n
        → length (sealed_chunk c chunk f i (i == n) (plain_chunk c chunk f i p))
          ≡ (if i == n then length p - i * chunk else chunk) + 16
    length-read n i p s le = ground (
      arith,
      length-sealed_chunk c chunk f g i (i == n) (plain_chunk c chunk f i p),
      length-take chunk (drop (i * chunk) p),
      length-drop (i * chunk) p,
      s.full,
      s.rest_fits,
      next_chunk n i p s,
    )

    -- One round of the loop yields its part of chunk `i`.
    decrypt_chunk_lem :
        (h : MediaHeader) (n i start end : ℕ) (p : Buffer)
        → IsSplit n p
        → h.nonce_prefix ≡ f.nonce_prefix
        → h.file_id ≡ f.file_id
        → h.raw ≡ f.header
        → 0 < length p
        → i ≤ n
        → decrypt_chunk c chunk (opened h n p) f.key start end (end / chunk) i
          ≡ some (
              take
                (to_of end i (length (plain_chunk c chunk f i p)) - from_of start i)
                (drop (from_of start i) (plain_chunk c chunk f i p)))
    unfolding decrypt_chunk
    decrypt_chunk_lem h n i start end p s hn hf hr l le =
        let opens =
          open_gcm-nonce c f.key (chunk_nonce f.nonce_prefix i)
            (chunk_aad f.header f.file_id i (i == n)) (plain_chunk c chunk f i p) g s.key_size
            (length-nonce i s) in
        rw (
          last_index n p s l,
          hn,
          hf,
          hr,
          read_chunk n i p s le,
          length-read n i p s le,
          (==_iff ((if i == n then length p - i * chunk else chunk) + 16)
                ((if i == n then length p - i * chunk else chunk) + 16)).1
              refl,
          opens,
        )

    -- That part is a slice of the plaintext.
    slice :
        (a b i : ℕ) (p : Buffer)
        → b ≤ chunk
        → take (b - a) (drop a (plain_chunk c chunk f i p)) ≡ take (b - a) (drop (i * chunk + a) p)
    slice a b i p h =
        rw
          (
            drop-take a chunk (drop (i * chunk) p),
            take-take (b - a) (chunk - a) (drop a (drop (i * chunk) p)),
            drop-drop (i * chunk) a p,
          )
          (ap (λ k. take k (drop (i * chunk + a) p)) (omega arith))

    from_fits : (start i : ℕ) → start / chunk ≤ i → from_of start i ≤ chunk
    from_fits start i h = ground (arith, lt-div-mul-add {a = start} pos, pos)

    from_later : (start i : ℕ) → start / chunk ≤ i → from_of start (i + 1) ≡ 0
    from_later start i h = ground arith

    end_chunk : (n end : ℕ) (p : Buffer) → IsSplit n p → end < length p → end / chunk ≤ n
    end_chunk n end p s h =
        lt_of_mul (end / chunk) n (omega (arith, div-mul-le_self end chunk, s.rest_fits))
      where
        lt_of_mul : (a b : ℕ) → a * chunk < b * chunk + chunk → a ≤ b
        lt_of_mul a b e = grind arith

    next_start : (i end : ℕ) → i < end / chunk → i * chunk + chunk ≤ end
    next_start i end h = le_trans (grind arith) (div-mul-le_self end chunk)

    -- A part that ends where the next chunk starts, and the rest of the range.
    join_next :
        (i end from : ℕ) (p : Buffer)
        → i < end / chunk
        → from ≤ chunk
        → take (chunk - from) (drop (i * chunk + from) p)
            ++ take (end + 1 - ((i + 1) * chunk + 0)) (drop ((i + 1) * chunk + 0) p)
          ≡ take (end + 1 - (i * chunk + from)) (drop (i * chunk + from) p)
    join_next i end from p h le =
        let here : (i + 1) * chunk + 0 ≡ i * chunk + from + (chunk - from) = omega arith in
        rw (here, ← drop-drop (i * chunk + from) (chunk - from) p, take-add)
          (ap (λ k. take k (drop (i * chunk + from) p)) (omega (arith, next_start i end h)))

    -- The last part, and nothing behind it.
    join_last :
        (i end from : ℕ) (p : Buffer)
        → i ≡ end / chunk
        → take (end - i * chunk + 1 - from) (drop (i * chunk + from) p)
            ++ take (end + 1 - ((i + 1) * chunk + 0)) (drop ((i + 1) * chunk + 0) p)
          ≡ take (end + 1 - (i * chunk + from)) (drop (i * chunk + from) p)
    join_last i end from p e =
        let past : end + 1 - ((i + 1) * chunk + 0) ≡ 0 =
          rw e (omega (arith, lt-div-mul-add {a = end} pos)) in
        let same : end - i * chunk + 1 - from ≡ end + 1 - (i * chunk + from) =
          rw e (omega (arith, div-mul-le_self end chunk)) in
        rw (past, same, append-nil)

    length-plain_chunk :
        (n i : ℕ) (p : Buffer) → IsSplit n p → i < n → length (plain_chunk c chunk f i p) ≡ chunk
    length-plain_chunk n i p s h = omega (
      arith,
      length-take chunk (drop (i * chunk) p),
      length-drop (i * chunk) p,
      next_chunk n i p s h,
    )

    part_and_rest :
        (n i start end : ℕ) (p : Buffer)
        → IsSplit n p
        → end < length p
        → start / chunk ≤ i
        → i ≤ end / chunk
        → take
              (to_of end i (length (plain_chunk c chunk f i p)) - from_of start i)
              (drop (from_of start i) (plain_chunk c chunk f i p))
            ++ take
                (end + 1 - ((i + 1) * chunk + from_of start (i + 1)))
                (drop ((i + 1) * chunk + from_of start (i + 1)) p)
          ≡ take (end + 1 - (i * chunk + from_of start i)) (drop (i * chunk + from_of start i) p)
    part_and_rest n i start end p s he first last = elim (Bool-cases (i == end / chunk)) [
      | inl e ↦
          let e' : i ≡ end / chunk = (==_iff i (end / chunk)).0 e in
          let fits : end - i * chunk + 1 ≤ chunk =
            rw e' (omega (arith, lt-div-mul-add {a = end} pos)) in
          rw (from_later start i first, e, slice (from_of start i) (end - i * chunk + 1) i p fits)
            (join_last i end (from_of start i) p e')
      | inr ne ↦
          let lt : i < end / chunk = ground arith in
          rw
            (
              from_later start i first,
              ne,
              length-plain_chunk n i p s (omega (arith, end_chunk n end p s he)),
              slice (from_of start i) chunk i p (le_refl chunk),
            )
            (join_next i end (from_of start i) p lt (from_fits start i first))
    ]

    decrypt_chunks-suc :
        (rounds : ℕ) (media : OpenedMedia) (start end i : ℕ) {part : Buffer} {parts : List Buffer}
        → decrypt_chunk c chunk media f.key start end (end / chunk) i ≡ some part
        → decrypt_chunks c chunk rounds media f.key start end (end / chunk) (i + 1) ≡ some parts
        → decrypt_chunks c chunk (suc rounds) media f.key start end (end / chunk) i
          ≡ some (part ∷ parts)
    unfolding decrypt_chunks
    decrypt_chunks-suc rounds media start end i d e = ground (arith, d, e)

    -- From chunk `i` on the loop yields the rest of the range.
    pub decrypt_chunks_lem :
        (rounds : ℕ) (h : MediaHeader) (n i start end : ℕ) (p : Buffer)
        → IsSplit n p
        → h.nonce_prefix ≡ f.nonce_prefix
        → h.file_id ≡ f.file_id
        → h.raw ≡ f.header
        → end < length p
        → start ≤ end
        → start / chunk ≤ i
        → i + rounds ≡ end / chunk + 1
        → (parts : List Buffer) × (decrypt_chunks c chunk rounds
              (opened h n p)
              f.key
              start
              end
              (end / chunk)
              i
            ≡ some parts)
          × (concat parts
              ≡ take
                  (end + 1 - (i * chunk + from_of start i))
                  (drop (i * chunk + from_of start i) p))
    unfolding decrypt_chunks
    decrypt_chunks_lem zero h n i start end p s hn hf hr he hs first e =
        let past : end + 1 - (i * chunk + from_of start i) ≡ 0 =
          let e' : i ≡ end / chunk + 1 = omega arith in
          rw e' (omega (arith, lt-div-mul-add {a = end} pos)) in
        ([], refl, ap (λ k. take k (drop (i * chunk + from_of start i) p)) (sym past))
    decrypt_chunks_lem (suc rounds) h n i start end p s hn hf hr he hs first e =
        let (parts, e1, e2) =
          decrypt_chunks_lem rounds h n (i + 1) start end p s hn hf hr he hs (omega arith)
            (omega arith) in
        let d =
          decrypt_chunk_lem h n i start end p s hn hf hr (omega arith)
            (omega (arith, end_chunk n end p s he)) in
        (
          take (to_of end i (length (plain_chunk c chunk f i p)) - from_of start i)
                (drop (from_of start i) (plain_chunk c chunk f i p))
              ∷ parts,
          decrypt_chunks-suc rounds (opened h n p) start end i d e1,
          ap
                (λ l.
                  take (to_of end i (length (plain_chunk c chunk f i p)) - from_of start i)
                    (drop (from_of start i) (plain_chunk c chunk f i p))
                  ++ l)
                e2
              ∙ part_and_rest n i start end p s he first (omega arith),
        )
