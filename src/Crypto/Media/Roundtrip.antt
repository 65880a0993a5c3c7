-- ===== src/Crypto/Media/Roundtrip.antt =====
-- From the plaintext through the writer, the stored file and the reader back to the plaintext.
use wa_logger.Base.{
  ℕ, zero, suc, ◌+◌, ◌-◌, ◌*◌, ◌/◌, ◌^◌, ◌≤◌, ◌<◌, ◌≡◌, refl, sym, ap, ◌∙◌, true, false, List, [],
  ◌∷◌, ◌++◌, arith, length, take, drop, Bool-cases, inl, inr, ◌==◌, ==_iff, Option, some,
  length-append, take_all, take-append_length, drop-append_length,
}
use mathlib.Core.List.{append-nil}
use mathlib.Core.Option
use mathlib.Core.Path.{subst}
use native.Mathlib.Nat.{div-mul-le_self, le-div_iff_mul-le, le_trans}
use wa_logger.Crypto.Gcm.{Buffer, Cipher, IsGcm, open_gcm-nonce}
use wa_logger.Crypto.Bytes.{be32, read_be32-be32, read_be32}
use wa_logger.Crypto.Media.{
  MediaHeader, MediaFileWriter, OpenedMedia, build_header, parse_header, create, finish,
  open_media_file, decrypt_range, decrypt_all, concat, chunk_nonce, chunk_aad,
}
use wa_logger.Crypto.Media.Layout.{FileKeys, sealed_chunk, length-sealed_chunk}
use wa_logger.Crypto.Media.Writing.{
  IsWriting, keys_of, write_all, write_all-IsWriting, finish_lem, created, create_lem,
  created-IsWriting,
}
use wa_logger.Crypto.Media.Reading.{
  IsSplit, stored_file, opened, open_stored_file, decrypt_chunks_lem, length-nonce, from_of,
}

-- What a header parses to is what it was built from.
pub parse_header-build_header :
    (key_id : ℕ) (prefix file_id : Buffer)
    → key_id < 2 ^ 32
    → length prefix ≡ 8
    → length file_id ≡ 16
    → parse_header (build_header key_id prefix file_id)
      ≡ some (record {
        key_id = key_id;
        nonce_prefix = prefix;
        file_id = file_id;
        raw = build_header key_id prefix file_id;
      })
unfolding parse_header build_header
parse_header-build_header key_id prefix file_id hk hn hf =
    let size = length-append prefix file_id in
    let id : read_be32 (be32 key_id ++ (prefix ++ file_id)) ≡ key_id =
      read_be32-be32 key_id (prefix ++ file_id) hk in
    ground (
      arith,
      size,
      take-append_length 8 prefix file_id (sym hn),
      drop-append_length 8 prefix file_id (sym hn),
      take_all 16 file_id (omega (arith, hf)),
      take_all 24 (prefix ++ file_id) (omega (arith, hf, hn, size)),
      id,
    )

abbrev stored_and_size : MediaFileWriter × ℕ → Option Buffer × ℕ
stored_and_size (w, size) = (w.stored, size)

-- An upload from `create` to `finish`: the file at its path, and the size that is reported.
pub store : Cipher → ℕ → Buffer → ℕ → Buffer → Buffer → List Buffer → Option (Option Buffer × ℕ)
store c chunk key key_id file_id prefix ds =
    Option.bind (create key key_id file_id prefix false)
      λ w. Option.bind (write_all c chunk ds w) λ w'. Option.map stored_and_size (finish c chunk w')

module _ (c : Cipher) (chunk : ℕ) (g : IsGcm c) (pos : 0 < chunk) where
  -- The split of the plaintext that the writer ends with.
  IsSplit-of_writing :
      (p : Buffer) (w : MediaFileWriter)
      → IsWriting c chunk p w
      → w.pending_len ≤ chunk
      → IsSplit c chunk (keys_of w) w.index p
  IsSplit-of_writing p w h le = record {
    full = omega (arith, h.count);
    rest_fits = omega (arith, h.count);
    rest_left = elim h.last_is_full [ inl z ↦ inl z | inr m ↦ inr (omega (arith, h.count)) ];
    key_size = h.key_size;
    header_size = h.header_size;
    prefix_size = h.prefix_size;
  }

  module _ (key : Buffer) (key_id : ℕ) (file_id prefix : Buffer) (hk : length key ≡ 32)
      (hf : length file_id ≡ 16) (hn : length prefix ≡ 8) where
    abbrev keys : FileKeys
    keys = record {
      key = key;
      header = build_header key_id prefix file_id;
      nonce_prefix = prefix;
      file_id = file_id;
    }

    store_lem :
        (ds : List Buffer)
        → (n : ℕ) × (store c chunk key key_id file_id prefix ds
            ≡ some (some (stored_file c chunk keys n (concat ds)), length (concat ds)))
          × IsSplit c chunk keys n (concat ds)
    unfolding store Option.bind
    store_lem ds =
        let w0 = created c chunk key key_id file_id prefix in
        let (w, e, h, le, k) =
          write_all-IsWriting c chunk g pos ds [] w0
            (created-IsWriting c chunk key key_id file_id prefix hk hf hn) (omega arith) in
        (
          w.index,
          rw
              (
                create_lem c chunk key key_id file_id prefix hk hf,
                e,
                finish_lem c chunk g pos (concat ds) w h,
              )
              (ap (λ f. some (some (stored_file c chunk f w.index (concat ds)), length (concat ds)))
                k),
          subst (λ f. IsSplit c chunk f w.index (concat ds)) k
              (IsSplit-of_writing (concat ds) w h le),
        )

    div_mono : (a b : ℕ) → a ≤ b → a / chunk ≤ b / chunk
    div_mono a b h = (le-div_iff_mul-le pos).1 (le_trans (div-mul-le_self a chunk) h)

    start_of :
        (start : ℕ)
        → start / chunk * chunk + from_of c chunk keys g pos start (start / chunk) ≡ start
    start_of start = ground (arith, div-mul-le_self start chunk)

    abbrev built : MediaHeader
    built = record {
      key_id = key_id;
      nonce_prefix = prefix;
      file_id = file_id;
      raw = build_header key_id prefix file_id;
    }

    range_stored :
        (n start end : ℕ) (p : Buffer)
        → IsSplit c chunk keys n p
        → start ≤ end
        → end < length p
        → (parts : List Buffer) × (decrypt_range c chunk
              (opened c chunk keys g pos built n p)
              key
              start
              end
            ≡ some parts)
          × (concat parts ≡ take (end + 1 - start) (drop start p))
    unfolding decrypt_range
    range_stored n start end p s hs he =
        let (parts, e1, e2) =
          decrypt_chunks_lem c chunk keys g pos (end / chunk + 1 - start / chunk) built n
            (start / chunk) start end p s refl refl refl he hs (omega arith)
            (omega (arith, div_mono start end hs)) in
        (
          parts,
          ground (arith, he, hs, e1),
          e2 ∙ ap (λ k. take (end + 1 - k) (drop k p)) (start_of start),
        )

    -- What `decryptAll` checks of an empty file: its one chunk is empty.
    empty_chunk :
        (n : ℕ) (p : Buffer)
        → IsSplit c chunk keys n p
        → length p ≡ 0
        → (take 16 (drop 33 (stored_file c chunk keys n p)) ≡ sealed_chunk c chunk keys 0 true [])
          × (p ≡ [])
    empty_chunk n (x ∷ p) s l = absurd (omega arith)
    empty_chunk zero [] s l =
        let z : 0 * chunk ≡ 0 = omega arith in
        let sealed = sealed_chunk c chunk keys 0 true [] in
        (
          rw
              (
                z,
                append-nil,
                drop-append_length 33 (build_header key_id prefix file_id) sealed
                    (sym s.header_size),
              )
              (take_all 16 sealed (omega (arith, length-sealed_chunk c chunk keys g 0 true []))),
          refl,
        )
    empty_chunk (suc n) [] s l =
        absurd (elim s.rest_left [ inl z ↦ omega arith | inr m ↦ omega arith ])

    all_stored :
        (n : ℕ) (p : Buffer) (key_for : ℕ → Option Buffer)
        → IsSplit c chunk keys n p
        → key_id < 2 ^ 32
        → key_for key_id ≡ some key
        → decrypt_all c chunk (stored_file c chunk keys n p) key_for ≡ some p
    unfolding decrypt_all
    all_stored n p key_for s hid hkey =
        let o =
          open_stored_file c chunk keys g pos built n p s
            (parse_header-build_header key_id prefix file_id hid hn hf) in
        elim (Bool-cases (length p == 0)) [
          | inl z ↦
              let (e1, e2) = empty_chunk n p s ((==_iff (length p) 0).0 z) in
              let opens =
                open_gcm-nonce c key (chunk_nonce prefix 0)
                  (chunk_aad (build_header key_id prefix file_id) file_id 0 true) [] g hk
                  (length-nonce c chunk keys g pos 0 s) in
              ground
                (arith, o, hkey, z, e1, e2, opens, length-sealed_chunk c chunk keys g 0 true [])
          | inr nz ↦
              let (parts, e1, e2) =
                range_stored n 0 (length p - 1) p s (omega arith) (ground arith) in
              ground (arith, o, hkey, e1, e2, take_all (length p - 1 + 1 - 0) p (omega arith))
        ]

    -- A range of an upload reads back as that range of the plaintext: the file that `finish` leaves
    -- opens under its key id with the plaintext's size, and the decrypted parts of the range from
    -- `start` to `end`, both within the plaintext, are its bytes `start` to `end`. However the bytes
    -- came in, whatever the chunk size above 0.
    pub decrypt_range-store :
        (ds : List Buffer) (start end : ℕ)
        → key_id < 2 ^ 32
        → start ≤ end
        → end < length (concat ds)
        → (file : Buffer) × (media : OpenedMedia) × (parts : List Buffer) × (store c chunk key
              key_id file_id prefix ds
            ≡ some (some file, length (concat ds)))
          × (open_media_file chunk file ≡ some media)
          × (media.header.key_id ≡ key_id)
          × (media.size ≡ length (concat ds))
          × (decrypt_range c chunk media key start end ≡ some parts)
          × (concat parts ≡ take (end + 1 - start) (drop start (concat ds)))
    decrypt_range-store ds start end hid hs he =
        let p = concat ds in
        let (n, e, s) = store_lem ds in
        let (parts, e1, e2) = range_stored n start end p s hs he in
        (
          stored_file c chunk keys n p,
          opened c chunk keys g pos built n p,
          parts,
          e,
          open_stored_file c chunk keys g pos built n p s
              (parse_header-build_header key_id prefix file_id hid hn hf),
          refl,
          refl,
          e1,
          e2,
        )

    -- The whole file reads back as the whole plaintext, the empty one included, for a reader that
    -- knows the key of its key id.
    pub decrypt_all-store :
        (ds : List Buffer) (key_for : ℕ → Option Buffer)
        → key_id < 2 ^ 32
        → key_for key_id ≡ some key
        → (file : Buffer) × (store c chunk key key_id file_id prefix ds
            ≡ some (some file, length (concat ds)))
          × (decrypt_all c chunk file key_for ≡ some (concat ds))
    decrypt_all-store ds key_for hid hkey =
        let (n, e, s) = store_lem ds in
        (stored_file c chunk keys n (concat ds), e, all_stored n (concat ds) key_for s hid hkey)
