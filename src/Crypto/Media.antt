-- ===== src/Crypto/Media.antt =====
-- server/src/crypto/stream.ts: the chunked format of encrypted media files, its writer and its reader.
-- `chunk` is CHUNK, 65536 in the code. A throw is `none`; a reader that throws has yielded a prefix
-- before, which is not kept.
pub mod Layout
pub mod Writing
pub mod Reading
pub mod Roundtrip
pub mod Contexts
mod Tests
use wa_logger.Base.{
  ℕ, zero, suc, ◌+◌, ◌-◌, ◌*◌, ◌/◌, Bool, true, false, Option, none, some, List, [], ◌∷◌, ◌++◌, ltb,
  leb, ◌==◌, ◌&&◌, ◌||◌, not, if◌then◌else◌, length, take, drop, replicate,
}
use wa_logger.Crypto.Gcm.{Buffer, Cipher, seal_gcm, open_gcm, key_len, nonce_len, tag_len}
use wa_logger.Base.Text.{codes}
use wa_logger.Crypto.Bytes.{be32, read_be32, hex, decimal}

-- "WAL1"
abbrev pub magic : Buffer
magic = 87 ∷ 65 ∷ 76 ∷ 49 ∷ []

abbrev pub format_version : ℕ
format_version = 1

abbrev pub header_len : ℕ
header_len = 33

pub record MediaHeader : Type 0 where
  pub key_id : ℕ
  pub nonce_prefix : Buffer
  pub file_id : Buffer
  pub raw : Buffer

-- `buildHeader`: the parts fill the header without gaps at the sizes that `create` gives them.
unfoldable pub build_header : ℕ → Buffer → Buffer → Buffer
unfolding be32
build_header key_id nonce_prefix file_id =
    magic ++ (format_version ∷ (be32 key_id ++ (nonce_prefix ++ file_id)))

abbrev same_bytes : Buffer → Buffer → Bool
same_bytes [] [] = true
same_bytes (x ∷ xs) (y ∷ ys) = x == y && same_bytes xs ys
same_bytes _ _ = false

abbrev byte_at : ℕ → Buffer → ℕ
byte_at zero (b ∷ bs) = b
byte_at (suc n) (b ∷ bs) = byte_at n bs
byte_at _ [] = 0

unfoldable pub parse_header : Buffer → Option MediaHeader
unfolding read_be32
parse_header h =
    if ltb (length h) header_len
      || not (same_bytes (take 4 h) magic)
      || not (byte_at 4 h == format_version)
    then none
    else some (record {
      key_id = read_be32 (drop 5 h);
      nonce_prefix = take 8 (drop 9 h);
      file_id = take 16 (drop 17 h);
      raw = take header_len h;
    })

-- The source throws at the index 2^32; the model wraps.
unfoldable pub chunk_nonce : Buffer → ℕ → Buffer
unfolding be32
chunk_nonce nonce_prefix index = nonce_prefix ++ be32 index

unfoldable pub chunk_aad : Buffer → Buffer → ℕ → Bool → Buffer
unfolding hex decimal
chunk_aad raw file_id index final =
    codes "wal/v1|media|"
    ++ (hex file_id
        ++ (codes "|"
            ++ (decimal index ++ (codes "|" ++ ((if final then 49 else 48) ∷ (codes "|" ++ raw))))))

-- A file being written: the object's fields, the bytes of `<path>.tmp`, and those of `<path>`.
pub record MediaFileWriter : Type 0 where
  pub key : Buffer
  pub header : Buffer
  pub nonce_prefix : Buffer
  pub file_id : Buffer
  pub pending : List Buffer
  pub pending_len : ℕ
  pub index : ℕ
  pub written : ℕ
  pub closed : Bool
  pub tmp : Option Buffer
  pub stored : Option Buffer

-- `Buffer.concat`
abbrev pub concat : List Buffer → Buffer
concat [] = []
concat (b ∷ bs) = b ++ concat bs

-- `fh.write(bytes, 0, bytes.length, position)`: a gap is filled with zeros.
unfoldable pub write_at : ℕ → Buffer → Buffer → Buffer
write_at pos bytes file =
    take pos file ++ (replicate (pos - length file) 0 ++ (bytes ++ drop (pos + length bytes) file))

-- `MediaFileWriter.create`, with the random nonce prefix as an argument. `exists` says that
-- `<path>.tmp` is there already, which the `wx` flag refuses.
unfoldable pub create : Buffer → ℕ → Buffer → Buffer → Bool → Option MediaFileWriter
unfolding build_header write_at
create key key_id file_id nonce_prefix exists =
    if not (length key == key_len) || not (length file_id == 16) || exists
    then none
    else some (record {
      key = key;
      header = build_header key_id nonce_prefix file_id;
      nonce_prefix = nonce_prefix;
      file_id = file_id;
      pending = [];
      pending_len = 0;
      index = 0;
      written = 0;
      closed = false;
      tmp = some (write_at 0 (build_header key_id nonce_prefix file_id) []);
      stored = none;
    })

unfoldable pub bytes_written : MediaFileWriter → ℕ
bytes_written w = w.written + w.pending_len

-- Node's handle writes to the open file; with no file it throws.
abbrev pub write_tmp : ℕ → Buffer → Option Buffer → Option Buffer
write_tmp pos bytes none = none
write_tmp pos bytes (some file) = some (write_at pos bytes file)

pub record OpenedMedia : Type 0 where
  pub header : MediaHeader
  pub size : ℕ
  pub file : Buffer

-- What `fill(0)` leaves of the key.
abbrev pub wiped : Buffer → Buffer
wiped key = replicate (length key) 0

unfoldable pub abort : MediaFileWriter → MediaFileWriter
abort w = if w.closed then w else record w { closed = true; key = wiped w.key; tmp = none }

-- `plaintextSizeFromFileSize`
unfoldable pub plaintext_size_from_file_size : ℕ → ℕ → Option ℕ
plaintext_size_from_file_size chunk file_size =
    let body = file_size - header_len in
    let n = (body + (chunk + tag_len - 1)) / (chunk + tag_len) in
    if ltb body tag_len
    then none
    else if ltb body (n * tag_len)
    then none
    else some (body - n * tag_len)

-- `openMediaFile`, on the bytes of the file.
unfoldable pub open_media_file : ℕ → Buffer → Option OpenedMedia
unfolding parse_header plaintext_size_from_file_size
open_media_file chunk file =
    if ltb (length file) header_len then none else elim (parse_header (take header_len file)) [
      | none ↦ none
      | some h ↦ elim (plaintext_size_from_file_size chunk (length file)) [
        | none ↦ none
        | some n ↦ some (record { header = h; size = n; file = file })
      ]
    ]

module _ (c : Cipher) (chunk : ℕ) where
  -- `emit`: the sealed text without its nonce, at the place of the chunk.
  unfoldable pub emit : Buffer → Bool → MediaFileWriter → Option MediaFileWriter
  unfolding seal_gcm chunk_nonce chunk_aad write_at
  emit plain final w =
      elim (seal_gcm c w.key plain (chunk_aad w.header w.file_id w.index final)
        (chunk_nonce w.nonce_prefix w.index)) [
          | none ↦ none
          | some sealed ↦
              elim (write_tmp (header_len + w.index * (chunk + tag_len)) (drop nonce_len sealed)
                w.tmp) [
                  | none ↦ none
                  | some file ↦ some (record w {
                    tmp = some file;
                    index = w.index + 1;
                    written = w.written + length plain;
                  })
                ]
        ]

  -- The loop of `write`, on fuel: each round takes `chunk` bytes off what is pending.
  unfoldable pub flush : ℕ → MediaFileWriter → Option MediaFileWriter
  unfolding emit
  flush zero w = none
  flush (suc fuel) w =
      let all = concat w.pending in
      let round : Option MediaFileWriter =
        elim (emit (take chunk all) false
          (record w { pending = drop chunk all ∷ []; pending_len = length (drop chunk all) })) [
            | none ↦ none
            | some w' ↦ flush fuel w'
          ] in
      if ltb chunk w.pending_len then round else some w

  unfoldable pub write : Buffer → MediaFileWriter → Option MediaFileWriter
  unfolding flush
  write bytes w =
      if w.closed
      then none
      else flush (suc (w.pending_len + length bytes)) (record w {
        pending = w.pending ++ (bytes ∷ []);
        pending_len = w.pending_len + length bytes;
      })

  -- `finish`: the writer, and the size it reports.
  unfoldable pub finish : MediaFileWriter → Option (MediaFileWriter × ℕ)
  unfolding emit
  finish w =
      if w.closed
      then none
      else elim (emit (concat w.pending) true (record w { pending = []; pending_len = 0 })) [
        | none ↦ none
        | some w' ↦ some (
          record w' { closed = true; key = wiped w'.key; stored = w'.tmp; tmp = none },
          w'.written,
        )
      ]

  -- The body of the loop of `decryptRange`, for chunk `i`.
  unfoldable pub decrypt_chunk : OpenedMedia → Buffer → ℕ → ℕ → ℕ → ℕ → Option Buffer
  decrypt_chunk media key start end last i =
      let final = i == (media.size - 1) / chunk in
      let enc_len = (if final then media.size - i * chunk else chunk) + tag_len in
      let bytes = take enc_len (drop (header_len + i * (chunk + tag_len)) media.file) in
      if length bytes == enc_len
      then elim (open_gcm c key (chunk_nonce media.header.nonce_prefix i ++ bytes)
          (chunk_aad media.header.raw media.header.file_id i final)) [
            | none ↦ none
            | some plain ↦
                let from = if i == start / chunk then start - i * chunk else 0 in
                let to = if i == last then end - i * chunk + 1 else length plain in
                some (take (to - from) (drop from plain))
          ]
      else none

  -- The loop, with the rounds that are left.
  unfoldable pub decrypt_chunks : ℕ → OpenedMedia → Buffer → ℕ → ℕ → ℕ → ℕ → Option (List Buffer)
  decrypt_chunks zero media key start end last i = some []
  decrypt_chunks (suc rounds) media key start end last i =
      let rest = decrypt_chunks rounds media key start end last (i + 1) in
      elim (decrypt_chunk media key start end last i) [
        | none ↦ none
        | some part ↦ elim rest [ none ↦ none | some parts ↦ some (part ∷ parts) ]
      ]

  -- `decryptRange`: the plaintext bytes from `start` to `end`, both included.
  unfoldable pub decrypt_range : OpenedMedia → Buffer → ℕ → ℕ → Option (List Buffer)
  decrypt_range media key start end =
      if media.size == 0
      then some []
      else if leb media.size end || ltb end start
      then none
      else decrypt_chunks (end / chunk + 1 - start / chunk) media key start end (end / chunk)
          (start / chunk)

  -- `decryptAll`
  unfoldable pub decrypt_all : Buffer → (ℕ → Option Buffer) → Option Buffer
  decrypt_all file key_for = elim (open_media_file chunk file) [
    | none ↦ none
    | some media ↦ elim (key_for media.header.key_id) [
      | none ↦ none
      | some key ↦
          if media.size == 0
          then (let bytes = take tag_len (drop header_len media.file) in
              if length bytes == tag_len
              then elim (open_gcm c key (chunk_nonce media.header.nonce_prefix 0 ++ bytes)
                  (chunk_aad media.header.raw media.header.file_id 0 true)) [
                    | none ↦ none
                    | some plain ↦ some []
                  ]
              else none)
          else elim (decrypt_range media key 0 (media.size - 1)) [
            | none ↦ none
            | some parts ↦ some (concat parts)
          ]
    ]
  ]
