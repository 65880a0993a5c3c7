-- ===== src/Http/Zip/Archive.antt =====
-- A reader of ZIP archives, by their central directory, and what it reads of those that are written.
use wa_logger.Base.{
  ℕ, zero, suc, ◌+◌, ◌-◌, ◌*◌, ◌<◌, ◌≡◌, refl, List, [], ◌∷◌, ◌++◌, length, take, drop, arith,
}
use wa_logger.Http.Zip.{Buffer, ZipEntry, local_header, central_header, end_record}

-- The byte at a place; one that is missing reads as 0.
unfoldable pub byte_at : ℕ → Buffer → ℕ
byte_at n [] = 0
byte_at zero (b ∷ bs) = b
byte_at (suc n) (b ∷ bs) = byte_at n bs

unfoldable pub u16 : ℕ → Buffer → ℕ
unfolding byte_at
u16 n b = byte_at n b + 256 * byte_at (n + 1) b

unfoldable pub u32 : ℕ → Buffer → ℕ
unfolding byte_at
u32 n b =
    byte_at n b
    + 256 * byte_at (n + 1) b
    + 65_536 * byte_at (n + 2) b
    + 16_777_216 * byte_at (n + 3) b

-- The name and the data of the entry whose record the central directory has at the front.
unfoldable pub read_entry : Buffer → Buffer → Buffer × Buffer
read_entry central file =
    let here = drop (u32 42 central) file in
    (
      take (u16 28 central) (drop 46 central),
      take (u32 24 central) (drop (u16 26 here) (drop 30 here)),
    )

unfoldable pub read_entries : ℕ → Buffer → Buffer → List (Buffer × Buffer)
read_entries zero central file = []
read_entries (suc n) central file =
    read_entry central file ∷ read_entries n (drop (u16 28 central) (drop 46 central)) file

-- The entries of an archive, found by the record at its end.
unfoldable pub unzip : Buffer → List (Buffer × Buffer)
unzip file =
    let end = drop (length file - 22) file in
    read_entries (u16 10 end) (drop (u32 16 end) file) file

pub central_name :
    (crc size start : ℕ) (e : ZipEntry) (rest : Buffer)
    → length e.name < 65_536
    → u16 28 (central_header crc size start e ++ rest) ≡ length e.name
unfolding u16 byte_at central_header
central_name crc size start e rest h = omega (arith, h)

pub central_size :
    (crc size start : ℕ) (e : ZipEntry) (rest : Buffer)
    → size < 4_294_967_296
    → u32 24 (central_header crc size start e ++ rest) ≡ size
unfolding u32 byte_at central_header
central_size crc size start e rest h = omega (arith, h)

pub central_start :
    (crc size start : ℕ) (e : ZipEntry) (rest : Buffer)
    → start < 4_294_967_296
    → u32 42 (central_header crc size start e ++ rest) ≡ start
unfolding u32 byte_at central_header
central_start crc size start e rest h = omega (arith, h)

pub central_tail :
    (crc size start : ℕ) (e : ZipEntry) (rest : Buffer)
    → drop 46 (central_header crc size start e ++ rest) ≡ rest
unfolding central_header
central_tail crc size start e rest = refl

pub local_name :
    (e : ZipEntry) (rest : Buffer)
    → length e.name < 65_536
    → u16 26 (local_header e ++ rest) ≡ length e.name
unfolding u16 byte_at local_header
local_name e rest h = omega (arith, h)

pub local_tail : (e : ZipEntry) (rest : Buffer) → drop 30 (local_header e ++ rest) ≡ rest
unfolding local_header
local_tail e rest = refl

pub end_count :
    (count size offset : ℕ) → count < 65_536 → u16 10 (end_record count size offset) ≡ count
unfolding u16 byte_at end_record
end_count count size offset h = omega (arith, h)

pub end_offset :
    (count size offset : ℕ)
    → offset < 4_294_967_296
    → u32 16 (end_record count size offset) ≡ offset
unfolding u32 byte_at end_record
end_offset count size offset h = omega (arith, h)
