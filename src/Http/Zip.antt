-- ===== src/Http/Zip.antt =====
-- server/src/http/zip.ts: the streaming ZIP writer, on bytes. `crc32` of node:zlib is a parameter.
pub mod Archive
pub mod Reading
mod Tests
use wa_logger.Base.{
  ℕ, ◌+◌, ◌-◌, ◌*◌, ◌/◌, ◌%◌, min, max, Option, none, some, List, [], ◌∷◌, ◌++◌, if◌then◌else◌, leb,
  ltb, length,
}

abbrev pub Buffer : Type 0
Buffer = List ℕ

-- The local date and time that `new Date(ms)` gives for a time.
pub record LocalTime : Type 0 where
  pub year : ℕ
  pub month : ℕ
  pub day : ℕ
  pub hours : ℕ
  pub minutes : ℕ
  pub seconds : ℕ

-- The name is in UTF-8; the content is what the stream `data` yields.
pub record ZipEntry : Type 0 where
  pub name : Buffer
  pub mtime : LocalTime
  pub content : List Buffer

abbrev pub zip_max_bytes : ℕ
zip_max_bytes = 4_294_967_295 - 64 * 1024 * 1024

-- `dosTime`
unfoldable pub dos_time : LocalTime → ℕ
dos_time t = t.hours * 2048 + t.minutes * 32 + t.seconds / 2

unfoldable pub dos_date : LocalTime → ℕ
dos_date t = (min (max t.year 1980) 2107 - 1980) * 512 + t.month * 32 + t.day

-- `writeUInt16LE`
abbrev pub le16 : ℕ → Buffer
le16 n = (n % 256) ∷ (n / 256 % 256) ∷ []

-- `writeUInt32LE`
abbrev pub le32 : ℕ → Buffer
le32 n = (n % 256) ∷ (n / 256 % 256) ∷ (n / 65536 % 256) ∷ (n / 16777216 % 256) ∷ []

abbrev pub flat : List Buffer → Buffer
flat [] = []
flat (b ∷ bs) = b ++ flat bs

-- The header of an entry, in front of its name; 2056 stands for `FLAGS`.
unfoldable pub local_header : ZipEntry → Buffer
unfolding dos_time dos_date
local_header e =
    le32 67_324_752
    ++ (le16 20
        ++ (le16 2056
            ++ (le16 0
                ++ (le16 (dos_time e.mtime)
                    ++ (le16 (dos_date e.mtime)
                        ++ (le32 0 ++ (le32 0 ++ (le32 0 ++ (le16 (length e.name) ++ le16 0)))))))))

-- `desc`
unfoldable pub data_descriptor : ℕ → ℕ → Buffer
data_descriptor crc size = le32 134_695_760 ++ (le32 crc ++ (le32 size ++ le32 size))

-- `cd`
unfoldable pub central_header : ℕ → ℕ → ℕ → ZipEntry → Buffer
unfolding dos_time dos_date
central_header crc size start e =
    le32 33_639_248
    ++ (le16 20
        ++ (le16 20
            ++ (le16 2056
                ++ (le16 0
                    ++ (le16 (dos_time e.mtime)
                        ++ (le16 (dos_date e.mtime)
                            ++ (le32 crc
                                ++ (le32 size
                                    ++ (le32 size
                                        ++ (le16 (length e.name)
                                            ++ (le32 0
                                                ++ (le32 0 ++ (le32 0 ++ le32 start)))))))))))))

-- `end`
unfoldable pub end_record : ℕ → ℕ → ℕ → Buffer
end_record count size offset =
    le32 101_010_256
    ++ (le32 0 ++ (le16 count ++ (le16 count ++ (le32 size ++ (le32 offset ++ le16 0)))))

-- What has been yielded, and the variables of `zipStream`.
pub record Zip : Type 0 where
  pub out : Buffer
  pub offset : ℕ
  pub central : Buffer

module _ (crc32 : Buffer → ℕ → ℕ) where
  -- The loop over the data: the checksum.
  unfoldable pub crc_of : List Buffer → ℕ → ℕ
  crc_of [] crc = crc
  crc_of (chunk ∷ chunks) crc = crc_of chunks (crc32 chunk crc)

  -- One round of `zipStream`. `writeUInt16LE` throws for a name that is too long.
  unfoldable pub add_entry : ZipEntry → Zip → Option Zip
  add_entry e z =
      let size = length (flat e.content) in
      let crc = crc_of e.content 0 in
      if leb (length e.name) 65_535
      then (if ltb zip_max_bytes (z.offset + (30 + length e.name) + size)
          then none
          else some (record {
            out =
                z.out
                ++ (local_header e ++ (e.name ++ (flat e.content ++ data_descriptor crc size)));
            offset = z.offset + (30 + length e.name) + size + 16;
            central = z.central ++ (central_header crc size z.offset e ++ e.name);
          }))
      else none

  unfoldable pub add_entries : List ZipEntry → Zip → Option Zip
  add_entries [] z = some z
  add_entries (e ∷ es) z = elim (add_entry e z) [ none ↦ none | some z' ↦ add_entries es z' ]

  abbrev pub closed : ℕ → Option Zip → Option Buffer
  closed count none = none
  closed count (some z) =
      if leb count 65_535
      then some (z.out ++ (z.central ++ end_record count (length z.central) z.offset))
      else none

  -- `zipStream`: all that is yielded, or nothing when it throws on the way.
  unfoldable pub zip_stream : List ZipEntry → Option Buffer
  zip_stream entries =
      closed (length entries) (add_entries entries (record { out = []; offset = 0; central = [] }))
