-- ===== src/Web/Ogg.antt =====
-- web/src/lib/ogg.ts: Opus packets in the pages of an Ogg stream. Bytes are numbers; 32-bit words wrap.
pub mod Checksum
pub mod Pages
mod Tests
use wa_logger.Base.{
  ℕ, zero, suc, ◌+◌, ◌-◌, ◌*◌, ◌/◌, ◌%◌, Option, none, some, List, [], ◌∷◌, ◌++◌, if◌then◌else◌,
  leb, ltb, ◌==◌, length, take, drop, replicate,
}
use wa_logger.Http.Zip.{Buffer, le16, le32, flat}
use wa_logger.Base.Text.{codes}

abbrev nth : ℕ → List ℕ → ℕ
nth n [] = 0
nth zero (x ∷ xs) = x
nth (suc n) (x ∷ xs) = nth n xs

abbrev frame_samples : ℕ → ℕ
frame_samples config =
    if ltb config 12
    then nth (config % 4) (480 ∷ 960 ∷ 1920 ∷ 2880 ∷ [])
    else if ltb config 16
    then (if config % 2 == 0 then 480 else 960)
    else nth (config % 4) (120 ∷ 240 ∷ 480 ∷ 960 ∷ [])

abbrev frame_count : ℕ → Buffer → ℕ
frame_count code rest = if code == 0 then 1 else if code == 3 then nth 0 rest % 64 else 2

-- `opusPacketSamples`
unfoldable pub opus_packet_samples : Buffer → ℕ
opus_packet_samples [] = 0
opus_packet_samples (toc ∷ rest) = frame_samples (toc / 8) * frame_count (toc % 4) rest

-- `^` on the lowest bits.
unfoldable pub xor_bits : ℕ → ℕ → ℕ → ℕ
xor_bits zero a b = 0
xor_bits (suc n) a b = (a % 2 + b % 2) % 2 + 2 * xor_bits n (a / 2) (b / 2)

abbrev pub word : ℕ
word = 4_294_967_296

-- The rounds of the inner loop for `CRC_TABLE`.
unfoldable pub table_rounds : ℕ → ℕ → ℕ
unfolding xor_bits
table_rounds zero r = r
table_rounds (suc n) r =
    table_rounds n
      (if leb 2_147_483_648 r then xor_bits 32 (r * 2 % word) 79_764_919 else r * 2 % word)

-- An entry of `CRC_TABLE`.
unfoldable pub crc_entry : ℕ → ℕ
unfolding table_rounds
crc_entry i = table_rounds 8 (i * 16_777_216 % word)

unfoldable pub crc_from : ℕ → Buffer → ℕ
crc_from c [] = c
crc_from c (x ∷ xs) =
    crc_from (xor_bits 32 (c * 256 % word) (crc_entry (xor_bits 32 (c / 16_777_216) x % 256))) xs

-- `crc`
unfoldable pub crc : Buffer → ℕ
crc b = crc_from 0 b

-- The lacing values of a packet of `n` bytes, on fuel: each round takes 255 off.
unfoldable pub lace : ℕ → ℕ → List ℕ
lace zero n = n ∷ []
lace (suc fuel) n = let rest = lace fuel (n - 255) in if leb 255 n then 255 ∷ rest else n ∷ []

unfoldable pub lacing_of : List Buffer → List ℕ
lacing_of [] = []
lacing_of (p ∷ ps) = lace (length p) (length p) ++ lacing_of ps

abbrev le64 : ℕ → Buffer
le64 n = le32 (n % word) ++ le32 (n / word % word)

-- `page`, with the given checksum in it
unfoldable pub page_with : ℕ → List Buffer → ℕ → ℕ → ℕ → ℕ → Buffer
page_with sum packets granule serial seq flags =
    (79 ∷ 103 ∷ 103 ∷ 83 ∷ 0 ∷ flags ∷ [])
    ++ (le64 granule
        ++ (le32 serial
            ++ (le32 seq
                ++ (le32 sum
                    ++ ((length (lacing_of packets) % 256)
                        ∷ (lacing_of packets ++ flat packets))))))

-- `page`
unfoldable pub page : List Buffer → ℕ → ℕ → ℕ → ℕ → Buffer
page packets granule serial seq flags =
    page_with (crc (page_with 0 packets granule serial seq flags)) packets granule serial seq flags

-- `defaultHead`
unfoldable pub default_head : Buffer
default_head = codes "OpusHead" ++ (1 ∷ 1 ∷ (le16 312 ++ (le32 48_000 ++ (0 ∷ 0 ∷ 0 ∷ []))))

-- The comment header of `oggOpus`.
unfoldable pub tags : Buffer
tags = codes "OpusTags" ++ (le32 9 ++ (codes "wa_logger" ++ le32 0))

unfoldable pub samples : List Buffer → ℕ
samples [] = 0
samples (p ∷ ps) = opus_packet_samples p + samples ps

abbrev pub last_flag : List Buffer → ℕ
last_flag [] = 4
last_flag (p ∷ ps) = 0

-- The loop of `oggOpus`, fifty packets a round, on fuel that the packets bound.
unfoldable pub pages_from : ℕ → ℕ → ℕ → ℕ → List Buffer → List Buffer
pages_from zero granule serial seq packets = []
pages_from (suc fuel) granule serial seq [] = []
pages_from (suc fuel) granule serial seq (p ∷ ps) =
    let batch = take 50 (p ∷ ps) in
    let rest = drop 50 (p ∷ ps) in
    let granule' = granule + samples batch in
    page batch granule' serial seq (last_flag rest) ∷ pages_from fuel granule' serial (seq + 1) rest

abbrev pub head_or : Option Buffer → Buffer
head_or none = default_head
head_or (some h) = h

abbrev pub audio_pages : ℕ → List Buffer → List Buffer
audio_pages serial [] = page [] 0 serial 2 4 ∷ []
audio_pages serial (p ∷ ps) = pages_from (length (p ∷ ps)) 0 serial 2 (p ∷ ps)

-- The pages of `oggOpus`, where `serial` is the random number.
unfoldable pub ogg_pages : ℕ → Option Buffer → List Buffer → List Buffer
ogg_pages serial head packets =
    page (head_or head ∷ []) 0 serial 0 2
    ∷ page (tags ∷ []) 0 serial 1 0
    ∷ audio_pages serial packets

-- `oggOpus`
unfoldable pub ogg_opus : ℕ → Option Buffer → List Buffer → Buffer
unfolding ogg_pages
ogg_opus serial head packets = flat (ogg_pages serial head packets)
