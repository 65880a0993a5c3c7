-- ===== src/Crypto/Bytes.antt =====
-- Numbers and texts as bytes: the `Buffer` methods that the formats use.
use wa_logger.Base.{
  ℕ, zero, suc, ◌+◌, ◌*◌, ◌/◌, ◌%◌, ◌<◌, ◌≡◌, List, [], ◌∷◌, ◌++◌, ltb, if◌then◌else◌, arith,
}

-- `writeUInt32BE`
unfoldable pub be32 : ℕ → List ℕ
be32 n = (n / 16777216 % 256) ∷ (n / 65536 % 256) ∷ (n / 256 % 256) ∷ (n % 256) ∷ []

-- `readUInt32BE` at the front; a missing byte reads as 0.
unfoldable pub read_be32 : List ℕ → ℕ
read_be32 (a ∷ b ∷ c ∷ d ∷ rest) = a * 16777216 + b * 65536 + c * 256 + d
read_be32 _ = 0

pub read_be32-be32 : (n : ℕ) (rest : List ℕ) → n < 4294967296 → read_be32 (be32 n ++ rest) ≡ n
unfolding read_be32 be32
read_be32-be32 n rest h = omega arith

hex_digit : ℕ → ℕ
hex_digit d = if ltb d 10 then 48 + d else 87 + d

-- `toString('hex')`
unfoldable pub hex : List ℕ → List ℕ
unfolding hex_digit
hex [] = []
hex (b ∷ bs) = hex_digit (b / 16) ∷ hex_digit (b % 16) ∷ hex bs

-- The decimal digits of a number, on fuel that its value bounds.
decimal_on : ℕ → ℕ → List ℕ → List ℕ
decimal_on zero n acc = acc
decimal_on (suc f) n acc =
    let rest = decimal_on f (n / 10) ((48 + n % 10) ∷ acc) in
    if ltb n 10 then (48 + n) ∷ acc else rest

-- `${n}`
unfoldable pub decimal : ℕ → List ℕ
unfolding decimal_on
decimal n = decimal_on (suc n) n []
