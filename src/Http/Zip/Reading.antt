-- ===== src/Http/Zip/Reading.antt =====
-- What a reader finds in an archive that `zipStream` has written.
use wa_logger.Base.{
  ℕ, ◌+◌, ◌-◌, ◌≤◌, ◌<◌, ◌≡◌, refl, sym, ap, ap₂, ◌∙◌, some, List, [], ◌∷◌, ◌++◌, map, length, drop,
  length-append, take-append_length, drop-append_length, inl, inr, Option-cases, arith,
}
use mathlib.Core.Path.{subst}
use mathlib.Core.List.{append_assoc, append-nil}
use wa_logger.Http.Zip.{
  Buffer, ZipEntry, flat, local_header, data_descriptor, central_header, end_record, Zip, crc_of,
  add_entry, add_entries, zip_stream,
}
use wa_logger.Http.Zip.Archive.{
  u16, read_entry, read_entries, unzip, central_name, central_size, central_start, central_tail,
  local_name, local_tail, end_count, end_offset,
}

length-local_header : (e : ZipEntry) → length (local_header e) ≡ 30
unfolding local_header
length-local_header e = refl

length-data_descriptor : (crc size : ℕ) → length (data_descriptor crc size) ≡ 16
unfolding data_descriptor
length-data_descriptor crc size = refl

length-end_record : (count size offset : ℕ) → length (end_record count size offset) ≡ 22
unfolding end_record
length-end_record count size offset = refl

-- What an archive holds of an entry.
abbrev pub content_of : ZipEntry → Buffer × Buffer
content_of e = (e.name, flat e.content)

module _ (crc32 : Buffer → ℕ → ℕ) where
  abbrev body : ZipEntry → Buffer
  body e =
      local_header e
      ++ (e.name
          ++ (flat e.content
              ++ data_descriptor (crc_of crc32 e.content 0) (length (flat e.content))))

  abbrev entry_record : ℕ → ZipEntry → Buffer
  entry_record start e =
      central_header (crc_of crc32 e.content 0) (length (flat e.content)) start e ++ e.name

  abbrev bodies : List ZipEntry → Buffer
  bodies [] = []
  bodies (e ∷ es) = body e ++ bodies es

  abbrev next_start : ℕ → ZipEntry → ℕ
  next_start start e = start + (30 + length e.name) + length (flat e.content) + 16

  abbrev directory : ℕ → List ZipEntry → Buffer
  directory start [] = []
  directory start (e ∷ es) = entry_record start e ++ directory (next_start start e) es

  -- Every name and offset fits its field.
  abbrev Fits : ℕ → List ZipEntry → Type 0
  Fits start [] = start ≤ 4_227_858_447
  Fits start (e ∷ es) =
      (length e.name < 65_536)
      × (length (flat e.content) < 4_294_967_296)
      × (start < 4_294_967_296)
      × Fits (next_start start e) es

  length-body : (e : ZipEntry) (start : ℕ) → start + length (body e) ≡ next_start start e
  length-body e start =
      let n = length e.name in
      let d = data_descriptor (crc_of crc32 e.content 0) (length (flat e.content)) in
      omega (
        arith,
        length-append (local_header e) (e.name ++ (flat e.content ++ d)),
        length-append e.name (flat e.content ++ d),
        length-append (flat e.content) d,
        length-local_header e,
        length-data_descriptor (crc_of crc32 e.content 0) (length (flat e.content)),
      )

  -- One entry is read back from behind the bytes in front of it.
  read_entry-body :
      (e : ZipEntry) (start : ℕ) (front rest central : Buffer)
      → length e.name < 65_536
      → length (flat e.content) < 4_294_967_296
      → start < 4_294_967_296
      → start ≡ length front
      → read_entry (entry_record start e ++ central) (front ++ (body e ++ rest)) ≡ content_of e
  unfolding read_entry
  read_entry-body e start front rest central n z o h =
      let crc = crc_of crc32 e.content 0 in
      let size = length (flat e.content) in
      let d = data_descriptor crc size in
      let more = flat e.content ++ (d ++ rest) in
      let here : drop start (front ++ (body e ++ rest)) ≡ local_header e ++ (e.name ++ more) =
        drop-append_length start front (body e ++ rest) h
        ∙ append_assoc (local_header e) (e.name ++ (flat e.content ++ d)) rest
        ∙ ap (λ x. local_header e ++ x)
            (append_assoc e.name (flat e.content ++ d) rest
              ∙ ap (λ x. e.name ++ x) (append_assoc (flat e.content) d rest)) in
      rw (
        append_assoc (central_header crc size start e) e.name central,
        read_entry,
        central_start crc size start e (e.name ++ central) o,
        central_name crc size start e (e.name ++ central) n,
        central_size crc size start e (e.name ++ central) z,
        central_tail crc size start e (e.name ++ central),
        here,
        local_name e (e.name ++ more) n,
        local_tail e (e.name ++ more),
        drop-append_length (length e.name) e.name more refl,
        take-append_length (length e.name) e.name central refl,
        take-append_length size (flat e.content) (d ++ rest) refl,
      )

  read_entries-bodies :
      (es : List ZipEntry) (start : ℕ) (front rest central : Buffer)
      → Fits start es
      → start ≡ length front
      → read_entries (length es) (directory start es ++ central) (front ++ (bodies es ++ rest))
        ≡ map content_of es
  unfolding read_entries
  read_entries-bodies [] start front rest central f h = refl
  read_entries-bodies (e ∷ es) start front rest central (n, z, o, f) h =
      let crc = crc_of crc32 e.content 0 in
      let size = length (flat e.content) in
      let others = directory (next_start start e) es ++ central in
      let one = read_entry-body e start front (bodies es ++ rest) others n z o h in
      let tail = read_entries-bodies es (next_start start e) (front ++ body e) rest central f (
        sym (
          length-append front (body e)
          ∙ ap (λ k. k + length (body e)) (sym h)
          ∙ length-body e start)) in
      let file : front ++ ((body e ++ bodies es) ++ rest)
          ≡ front ++ (body e ++ (bodies es ++ rest)) =
        ap (λ x. front ++ x) (append_assoc (body e) (bodies es) rest) in
      let skip : drop (u16 28 (entry_record start e ++ others))
            (drop 46 (entry_record start e ++ others))
          ≡ others =
        rw (
          append_assoc (central_header crc size start e) e.name others,
          central_name crc size start e (e.name ++ others) n,
          central_tail crc size start e (e.name ++ others),
          drop-append_length (length e.name) e.name others refl,
        ) in
      rw (append_assoc (entry_record start e) (directory (next_start start e) es) central, file)
        (ap₂ (λ a l. a ∷ l) one
          (ap (λ c. read_entries (length es) c (front ++ (body e ++ (bodies es ++ rest)))) skip
            ∙ ap (read_entries (length es) others)
                (sym (append_assoc front (body e) (bodies es ++ rest)))
            ∙ tail))

  -- What `add_entry` has done when it succeeds.
  abbrev Added : ZipEntry → Zip → Zip → Type 0
  Added e z y =
      (y.out ≡ z.out ++ body e)
      × (y.offset ≡ next_start z.offset e)
      × (y.central ≡ z.central ++ entry_record z.offset e)
      × (length e.name < 65_536)
      × (z.offset + (30 + length e.name) + length (flat e.content) ≤ 4_227_858_431)

  add_entry_lem : (e : ZipEntry) (z y : Zip) → add_entry crc32 e z ≡ some y → Added e z y
  unfolding add_entry
  add_entry_lem e z y h = ground arith

  -- What `add_entries` has done when it succeeds.
  abbrev Built : List ZipEntry → Zip → Zip → Type 0
  Built es z y =
      (y.out ≡ z.out ++ bodies es)
      × (y.central ≡ z.central ++ directory z.offset es)
      × (y.offset ≡ length y.out)
      × (y.offset ≤ 4_227_858_447)
      × Fits z.offset es

  add_entries_lem :
      (es : List ZipEntry) (z y : Zip)
      → z.offset ≡ length z.out
      → z.offset ≤ 4_227_858_447
      → add_entries crc32 es z ≡ some y
      → Built es z y
  unfolding add_entries
  add_entries_lem [] z y o l h =
      let q : z ≡ y = ground (arith, h) in
      subst (Built [] z) q (sym (append-nil z.out), sym (append-nil z.central), o, l, l)
  add_entries_lem (e ∷ es) z y o l h = elim (Option-cases (add_entry crc32 e z)) [
    | inl n ↦ absurd (ground (arith, n, h))
    | inr (x, a) ↦
        let (out, off, cen, n, m) = add_entry_lem e z x a in
        let next : add_entries crc32 es x ≡ some y = ground (arith, a, h) in
        let xo : x.offset ≡ length x.out =
          off
          ∙ sym (length-body e z.offset)
          ∙ ap (λ k. k + length (body e)) o
          ∙ sym (length-append z.out (body e))
          ∙ ap length (sym out) in
        let (out', cen', off', max', fits) =
          add_entries_lem es x y xo (omega (arith, off, m)) next in
        (
          out' ∙ ap (λ b. b ++ bodies es) out ∙ append_assoc z.out (body e) (bodies es),
          cen'
              ∙ ap₂ (λ c k. c ++ directory k es) cen off
              ∙ append_assoc z.central (entry_record z.offset e)
                  (directory (next_start z.offset e) es),
          off',
          max',
          (n, omega (arith, m), omega (arith, l), subst (λ k. Fits k es) off fits),
        )
  ]

  -- The reader on what was built, closed with the directory and the record at the end.
  unzip-closed :
      (es : List ZipEntry) (y : Zip)
      → Built es (record { out = []; offset = 0; central = [] }) y
      → length es < 65_536
      → unzip (y.out ++ (y.central ++ end_record (length es) (length y.central) y.offset))
        ≡ map content_of es
  unfolding unzip
  unzip-closed es y (out, cen, off, max, fits) n =
      let e = end_record (length es) (length y.central) y.offset in
      let file = y.out ++ (y.central ++ e) in
      let last : drop (length file - 22) file ≡ e =
        ap (drop (length file - 22)) (sym (append_assoc y.out y.central e))
        ∙ drop-append_length (length file - 22) (y.out ++ y.central) e (
            omega (
              arith,
              length-append y.out (y.central ++ e),
              length-append y.central e,
              length-append y.out y.central,
              length-end_record (length es) (length y.central) y.offset,
            )) in
      let front : drop y.offset file ≡ directory 0 es ++ e =
        drop-append_length y.offset y.out (y.central ++ e) off ∙ ap (λ c. c ++ e) cen in
      rw
        (
          unzip,
          last,
          end_count (length es) (length y.central) y.offset n,
          end_offset (length es) (length y.central) y.offset (omega (arith, max)),
          front,
        )
        (ap (λ b. read_entries (length es) (directory 0 es ++ e) (b ++ (y.central ++ e))) out
          ∙ read_entries-bodies es 0 [] (y.central ++ e) e fits refl)

  -- Whatever `zipStream` writes, a reader that follows the central directory finds the entries in it, in their
  -- order, each with its name and its data: no offset or size is wrong or cut off.
  pub unzip-zip_stream :
      (es : List ZipEntry) (file : Buffer)
      → zip_stream crc32 es ≡ some file
      → unzip file ≡ map content_of es
  unfolding zip_stream
  unzip-zip_stream es file h =
      elim (Option-cases (add_entries crc32 es (record { out = []; offset = 0; central = [] }))) [
        | inl n ↦ absurd (ground (arith, n, h))
        | inr (y, a) ↦
            let built =
              add_entries_lem es (record { out = []; offset = 0; central = [] }) y refl
                (omega arith) a in
            let fits : length es < 65_536 = ground (arith, a, h) in
            let same : y.out ++ (y.central ++ end_record (length es) (length y.central) y.offset)
                ≡ file =
              ground (arith, a, h) in
            ap unzip (sym same) ∙ unzip-closed es y built fits
      ]
