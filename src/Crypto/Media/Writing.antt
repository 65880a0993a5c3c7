-- ===== src/Crypto/Media/Writing.antt =====
-- What the writer has put into the file, as the plaintext comes in.
use wa_logger.Base.{
  ℕ, zero, suc, ◌+◌, ◌*◌, ◌≤◌, ◌<◌, ◌≡◌, refl, sym, ap, ◌∙◌, Bool, true, false, List, [], ◌∷◌, ◌++◌,
  arith, length, take, drop, Bool-cases, inl, inr, ltb, ltb→lt, if◌then◌else◌, ◌⊎◌, Option, none,
  some, length-append, length-take, length-drop, drop-append_length, drop-append_le, drop-drop,
}
use mathlib.Core.List.{append_assoc, append-nil}
use mathlib.Core.Option
use native.Mathlib.Numerals.{add-one}
use wa_logger.Crypto.Gcm.{Buffer, Cipher, IsGcm, seal_gcm}
use wa_logger.Crypto.Bytes.{be32}
use wa_logger.Crypto.Media.{
  MediaFileWriter, chunk_nonce, build_header, create, emit, flush, write, finish, concat, write_at,
  wiped,
}
use wa_logger.Crypto.Media.Layout.{
  FileKeys, sealed_chunk, bodies, length-bodies, bodies-append, write_at_end,
}

abbrev pub keys_of : MediaFileWriter → FileKeys
keys_of w = record {
  key = w.key;
  header = w.header;
  nonce_prefix = w.nonce_prefix;
  file_id = w.file_id;
}

module _ (c : Cipher) (chunk : ℕ) where
  -- The state of an open writer that was given the plaintext `p`.
  pub record IsWriting (p : Buffer) (w : MediaFileWriter) : Type 0 where
    pub is_open : w.closed ≡ false
    pub key_size : length w.key ≡ 32
    pub header_size : length w.header ≡ 33
    pub prefix_size : length w.nonce_prefix ≡ 8
    pub pend : concat w.pending ≡ drop (w.index * chunk) p
    pub count : w.pending_len + w.index * chunk ≡ length p
    pub last_is_full : (w.index ≡ 0) ⊎ (0 < w.pending_len)
    pub plain_written : w.written ≡ w.index * chunk
    pub file : w.tmp ≡ some (w.header ++ bodies c chunk (keys_of w) w.index p)

  length-chunk_nonce :
      (prefix : Buffer) (i : ℕ) → length prefix ≡ 8 → length (chunk_nonce prefix i) ≡ 12
  unfolding chunk_nonce
  length-chunk_nonce prefix i h = omega (arith, length-append prefix (be32 i))

  -- `emit` appends the sealed chunk.
  pub emit_lem :
      (plain : Buffer) (final : Bool) (w : MediaFileWriter) (file : Buffer)
      → length w.key ≡ 32
      → length w.nonce_prefix ≡ 8
      → w.tmp ≡ some file
      → length file ≡ 33 + w.index * (chunk + 16)
      → emit c chunk plain final w
        ≡ some (record w {
          tmp = some (file ++ sealed_chunk c chunk (keys_of w) w.index final plain);
          index = w.index + 1;
          written = w.written + length plain;
        })
  unfolding emit seal_gcm
  emit_lem plain final w file hk hn ht hl =
      let nonce = chunk_nonce w.nonce_prefix w.index in
      let sealed = sealed_chunk c chunk (keys_of w) w.index final plain in
      ground (
        arith,
        drop-append_length 12 nonce sealed (sym (length-chunk_nonce w.nonce_prefix w.index hn)),
        write_at_end (33 + w.index * (chunk + 16)) sealed file (sym hl),
      )

  -- A whole upload: the bytes as they arrive, one `write` after the other.
  abbrev pub write_all : List Buffer → MediaFileWriter → Option MediaFileWriter
  write_all [] w = some w
  write_all (d ∷ ds) w = Option.bind (write c chunk d w) (write_all ds)

  -- The writer after `finish`, and the file that it leaves.
  abbrev pub final_file : Buffer → MediaFileWriter → Buffer
  final_file p w =
      (w.header ++ bodies c chunk (keys_of w) w.index p)
      ++ sealed_chunk c chunk (keys_of w) w.index true (drop (w.index * chunk) p)

  abbrev pub finished : Buffer → MediaFileWriter → MediaFileWriter
  finished p w = record w {
    key = wiped w.key;
    pending = [];
    pending_len = 0;
    index = w.index + 1;
    written = length p;
    closed = true;
    tmp = none;
    stored = some (final_file p w);
  }

  module _ (g : IsGcm c) (pos : 0 < chunk) where
    file_size :
        (p : Buffer) (w : MediaFileWriter)
        → IsWriting p w
        → length (w.header ++ bodies c chunk (keys_of w) w.index p) ≡ 33 + w.index * (chunk + 16)
    file_size p w h = omega (
      arith,
      length-append w.header (bodies c chunk (keys_of w) w.index p),
      length-bodies c chunk (keys_of w) g w.index p (omega (arith, h.count)),
      h.header_size,
    )

    length-pending :
        (p : Buffer) (w : MediaFileWriter)
        → IsWriting p w
        → length (concat w.pending) ≡ w.pending_len
    length-pending p w h =
        ap length h.pend ∙ omega (arith, length-drop (w.index * chunk) p, h.count)

    -- The state after one round of the loop of `write`.
    abbrev flushed : MediaFileWriter → MediaFileWriter
    flushed w = record w {
      pending = drop chunk (concat w.pending) ∷ [];
      pending_len = length (drop chunk (concat w.pending));
      tmp =
          Option.map
            (λ file.
              file
              ++ sealed_chunk c chunk (keys_of w) w.index false (take chunk (concat w.pending)))
            w.tmp;
      index = w.index + 1;
      written = w.written + length (take chunk (concat w.pending));
    }

    flushed-IsWriting :
        (p : Buffer) (w : MediaFileWriter)
        → IsWriting p w
        → chunk < w.pending_len
        → IsWriting p (flushed w)
    flushed-IsWriting p w h more = record {
      is_open = h.is_open;
      key_size = h.key_size;
      header_size = h.header_size;
      prefix_size = h.prefix_size;
      pend =
          rw (append-nil, h.pend, drop-drop (w.index * chunk) chunk p)
            (ap (λ k. drop k p) (omega arith));
      count = omega (arith, length-drop chunk (concat w.pending), length-pending p w h, h.count);
      last_is_full =
          inr (omega (arith, length-drop chunk (concat w.pending), length-pending p w h));
      plain_written =
          omega
            (arith, length-take chunk (concat w.pending), length-pending p w h, h.plain_written);
      file = rw (h.file, h.pend, add-one, append_assoc);
    }

    emit-flushed :
        (p : Buffer) (w : MediaFileWriter)
        → IsWriting p w
        → emit c chunk (take chunk (concat w.pending)) false (record w {
          pending = drop chunk (concat w.pending) ∷ [];
          pending_len = length (drop chunk (concat w.pending));
        })
          ≡ some (flushed w)
    emit-flushed p w h =
        emit_lem (take chunk (concat w.pending)) false
          (record w {
            pending = drop chunk (concat w.pending) ∷ [];
            pending_len = length (drop chunk (concat w.pending));
          })
          (w.header ++ bodies c chunk (keys_of w) w.index p) h.key_size h.prefix_size h.file
          (file_size p w h)
        ∙ rw h.file

    -- The loop of `write` ends, with at most one chunk pending.
    flush-IsWriting :
        (fuel : ℕ) (p : Buffer) (w : MediaFileWriter)
        → IsWriting p w
        → w.pending_len < fuel
        → (w' : MediaFileWriter) × (flush c chunk fuel w ≡ some w')
          × IsWriting p w'
          × (w'.pending_len ≤ chunk)
          × (keys_of w' ≡ keys_of w)
    unfolding flush
    flush-IsWriting zero p w h lt = absurd (omega arith)
    flush-IsWriting (suc fuel) p w h lt = elim (Bool-cases (ltb chunk w.pending_len)) [
      | inl more ↦
          rw (more, emit-flushed p w h)
            (flush-IsWriting fuel p (flushed w) (flushed-IsWriting p w h (ground arith)) (
              omega (
                arith,
                ltb→lt chunk w.pending_len more,
                length-drop chunk (concat w.pending),
                length-pending p w h,
              )))
      | inr done ↦ rw done (w, refl, h, ground arith, refl)
    ]

    concat-append : (bs : List Buffer) (b : Buffer) → concat (bs ++ (b ∷ [])) ≡ concat bs ++ b
    concat-append [] b = append-nil b
    concat-append (x ∷ bs) b =
        ap (λ l. x ++ l) (concat-append bs b) ∙ sym (append_assoc x (concat bs) b)

    -- The state that the loop of `write` starts from.
    abbrev pushed : Buffer → MediaFileWriter → MediaFileWriter
    pushed d w = record w {
      pending = w.pending ++ (d ∷ []);
      pending_len = w.pending_len + length d;
    }

    pushed-IsWriting :
        (p d : Buffer) (w : MediaFileWriter)
        → IsWriting p w
        → 0 < w.pending_len + length d ⊎ (w.index ≡ 0)
        → IsWriting (p ++ d) (pushed d w)
    pushed-IsWriting p d w h some_left = record {
      is_open = h.is_open;
      key_size = h.key_size;
      header_size = h.header_size;
      prefix_size = h.prefix_size;
      pend =
          concat-append w.pending d
          ∙ ap (λ l. l ++ d) h.pend
          ∙ sym (drop-append_le (w.index * chunk) p d (omega (arith, h.count)));
      count = omega (arith, length-append p d, h.count);
      last_is_full = elim some_left [ inl m ↦ inr m | inr z ↦ inl z ];
      plain_written = h.plain_written;
      file =
          h.file
          ∙ ap (λ l. some (w.header ++ l))
              (sym (bodies-append c chunk (keys_of w) w.index p d (omega (arith, h.count))));
    }

    some_left :
        (p d : Buffer) (w : MediaFileWriter)
        → IsWriting p w
        → 0 < w.pending_len + length d ⊎ (w.index ≡ 0)
    some_left p d w h = elim h.last_is_full [ inl z ↦ inr z | inr m ↦ inl (omega arith) ]

    write-open :
        (d : Buffer) (w : MediaFileWriter)
        → w.closed ≡ false
        → write c chunk d w ≡ flush c chunk (suc (w.pending_len + length d)) (pushed d w)
    unfolding write
    write-open d w e =
        ap (λ b. if b then none else flush c chunk (suc (w.pending_len + length d)) (pushed d w)) e

    -- `write` takes any bytes, and leaves the writer open on the longer plaintext.
    pub write-IsWriting :
        (p d : Buffer) (w : MediaFileWriter)
        → IsWriting p w
        → (w' : MediaFileWriter) × (write c chunk d w ≡ some w')
          × IsWriting (p ++ d) w'
          × (w'.pending_len ≤ chunk)
          × (keys_of w' ≡ keys_of w)
    write-IsWriting p d w h =
        let (w', e, h', le, k) =
          flush-IsWriting (suc (w.pending_len + length d)) (p ++ d) (pushed d w)
            (pushed-IsWriting p d w h (some_left p d w h)) (omega arith) in
        (w', write-open d w h.is_open ∙ e, h', le, k)

    pub write_all-IsWriting :
        (ds : List Buffer) (p : Buffer) (w : MediaFileWriter)
        → IsWriting p w
        → w.pending_len ≤ chunk
        → (w' : MediaFileWriter) × (write_all ds w ≡ some w')
          × IsWriting (p ++ concat ds) w'
          × (w'.pending_len ≤ chunk)
          × (keys_of w' ≡ keys_of w)
    unfolding Option.bind
    write_all-IsWriting [] p w h le = (w, refl, rw append-nil h, le, refl)
    write_all-IsWriting (d ∷ ds) p w h le =
        let (w1, e1, h1, le1, k1) = write-IsWriting p d w h in
        let (w2, e2, h2, le2, k2) = write_all-IsWriting ds (p ++ d) w1 h1 le1 in
        (w2, rw e1 e2, rw append_assoc at h2, le2, k2 ∙ k1)

    pub finish_lem :
        (p : Buffer) (w : MediaFileWriter)
        → IsWriting p w
        → finish c chunk w ≡ some (finished p w, length p)
    unfolding finish
    finish_lem p w h =
        let e =
          emit_lem (concat w.pending) true (record w { pending = []; pending_len = 0 })
            (w.header ++ bodies c chunk (keys_of w) w.index p) h.key_size h.prefix_size h.file
            (file_size p w h) in
        let total : w.written + length (concat w.pending) ≡ length p =
          omega (arith, length-pending p w h, h.plain_written, h.count) in
        ground (arith, h.is_open, e, total, h.pend)

  -- The writer that `create` returns.
  abbrev pub created : Buffer → ℕ → Buffer → Buffer → MediaFileWriter
  created key key_id file_id prefix = record {
    key = key;
    header = build_header key_id prefix file_id;
    nonce_prefix = prefix;
    file_id = file_id;
    pending = [];
    pending_len = 0;
    index = 0;
    written = 0;
    closed = false;
    tmp = some (build_header key_id prefix file_id ++ []);
    stored = none;
  }

  pub create_lem :
      (key : Buffer) (key_id : ℕ) (file_id prefix : Buffer)
      → length key ≡ 32
      → length file_id ≡ 16
      → create key key_id file_id prefix false ≡ some (created key key_id file_id prefix)
  unfolding create write_at
  create_lem key key_id file_id prefix hk hf = ground (arith, hk, hf)

  -- A new writer holds the header and no plaintext.
  pub created-IsWriting :
      (key : Buffer) (key_id : ℕ) (file_id prefix : Buffer)
      → length key ≡ 32
      → length file_id ≡ 16
      → length prefix ≡ 8
      → IsWriting [] (created key key_id file_id prefix)
  unfolding build_header
  created-IsWriting key key_id file_id prefix hk hf hn = record {
    is_open = refl;
    key_size = hk;
    header_size = omega (arith, hf, hn, length-append prefix file_id);
    prefix_size = hn;
    pend = drop_nil (0 * chunk);
    count = omega arith;
    last_is_full = inl refl;
    plain_written = omega arith;
    file = refl;
  }
    where
      drop_nil : (k : ℕ) → [] ≡ drop {A = ℕ} k []
      drop_nil zero = refl
      drop_nil (suc k) = refl
