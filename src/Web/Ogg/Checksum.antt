-- ===== src/Web/Ogg/Checksum.antt =====
-- web/src/lib/ogg.ts: the checksum of a page as a reader computes it, and that `crc` is the same.
use wa_logger.Base.{
  ℕ, zero, suc, ◌+◌, ◌*◌, ◌/◌, ◌%◌, ◌^◌, ◌<◌, ◌≡◌, refl, ap, ◌∙◌, [], ◌∷◌, if◌then◌else◌, leb,
  arith,
}
use wa_logger.Http.Zip.{Buffer}
use wa_logger.Web.Ogg.{table_rounds, crc_entry, xor_bits, crc_from, crc}

-- The generator polynomial of the checksum of RFC 3533, without its x^32: 0x04c11db7.
abbrev generator : ℕ
generator =
    2 ^ 26
    + 2 ^ 23
    + 2 ^ 22
    + 2 ^ 16
    + 2 ^ 12
    + 2 ^ 11
    + 2 ^ 10
    + 2 ^ 8
    + 2 ^ 7
    + 2 ^ 5
    + 2 ^ 4
    + 2 ^ 2
    + 2
    + 1

-- The remainder of a word after `n` steps of the division by it.
unfoldable remainder : ℕ → ℕ → ℕ
remainder zero r = r
remainder (suc n) r =
    remainder n (if leb (2 ^ 31) r then xor_bits 32 (r * 2 % 2 ^ 32) generator else r * 2 % 2 ^ 32)

unfoldable ogg_crc_from : ℕ → Buffer → ℕ
unfolding remainder
ogg_crc_from c [] = c
ogg_crc_from c (x ∷ xs) =
    let top = xor_bits 32 (c / 2 ^ 24) x % 2 ^ 8 in
    ogg_crc_from (xor_bits 32 (c * 2 ^ 8 % 2 ^ 32) (remainder 8 (top * 2 ^ 24 % 2 ^ 32))) xs

-- The reader's own checksum: the division goes on for eight steps with each byte, from 0 and with no table.
unfoldable pub ogg_crc : Buffer → ℕ
unfolding ogg_crc_from
ogg_crc b = ogg_crc_from 0 b

table_rounds-remainder : (n r : ℕ) → table_rounds n r ≡ remainder n r
unfolding table_rounds remainder
table_rounds-remainder zero r = refl
table_rounds-remainder (suc n) r =
    table_rounds-remainder n
      (if leb (2 ^ 31) r then xor_bits 32 (r * 2 % 2 ^ 32) generator else r * 2 % 2 ^ 32)

crc_from-ogg_crc_from : (c : ℕ) (b : Buffer) → crc_from c b ≡ ogg_crc_from c b
unfolding crc_from ogg_crc_from crc_entry
crc_from-ogg_crc_from c [] = refl
crc_from-ogg_crc_from c (x ∷ xs) =
    let top = xor_bits 32 (c / 2 ^ 24) x % 2 ^ 8 in
    let shifted = c * 2 ^ 8 % 2 ^ 32 in
    ap (λ e. crc_from (xor_bits 32 shifted e) xs) (table_rounds-remainder 8 (top * 2 ^ 24 % 2 ^ 32))
    ∙ crc_from-ogg_crc_from (xor_bits 32 shifted (remainder 8 (top * 2 ^ 24 % 2 ^ 32))) xs

pub crc-ogg_crc : (b : Buffer) → crc b ≡ ogg_crc b
unfolding crc ogg_crc
crc-ogg_crc b = crc_from-ogg_crc_from 0 b

xor_bits_lt : (n a b : ℕ) → xor_bits n a b < 2 ^ n
unfolding xor_bits
xor_bits_lt zero a b = omega arith
xor_bits_lt (suc n) a b = omega (arith, xor_bits_lt n (a / 2) (b / 2))

crc_from_lt : (c : ℕ) (b : Buffer) → c < 4_294_967_296 → crc_from c b < 4_294_967_296
unfolding crc_from
crc_from_lt c [] h = h
crc_from_lt c (x ∷ xs) h =
    crc_from_lt (xor_bits 32 (c * 256 % 2 ^ 32) (crc_entry (xor_bits 32 (c / 16_777_216) x % 256)))
      xs (xor_bits_lt 32 (c * 256 % 2 ^ 32) (crc_entry (xor_bits 32 (c / 16_777_216) x % 256)))

pub sum_lt : (b : Buffer) → crc b < 4_294_967_296
unfolding crc
sum_lt b = crc_from_lt 0 b (omega arith)
