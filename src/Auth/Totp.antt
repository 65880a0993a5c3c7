-- ===== src/Auth/Totp.antt =====
-- server/src/auth/totp.ts: one-time codes of RFC 6238. HMAC-SHA1 of node:crypto is a parameter, which gives 20 bytes.
-- `base32` and `otpauthUrl`, which only display the secret, are left out.
pub mod Window
use wa_logger.Base.{
  ℕ, ◌+◌, ◌-◌, ◌/◌, ◌%◌, ◌*◌, Bool, ◌&&◌, Option, none, some, List, [], ◌∷◌, ◌++◌, if◌then◌else◌,
  ◌==◌, leb, length, replicate, drop,
}
use wa_logger.Base.Text.{Text, text_beq, is_space, is_digit, all_chars}
use wa_logger.Crypto.Gcm.{Buffer}
use wa_logger.Crypto.Bytes.{be32, read_be32, decimal}

abbrev pub step_seconds : ℕ
step_seconds = 30

abbrev pub digits : ℕ
digits = 6

-- `currentStep`
unfoldable pub current_step : ℕ → ℕ
current_step now = now / (1000 * step_seconds)

-- `writeBigUInt64BE`
unfoldable pub be64 : ℕ → Buffer
be64 n = be32 (n / 4294967296) ++ be32 n

-- `padStart(n, '0')`
unfoldable pub pad_zeros : ℕ → Text → Text
pad_zeros n s = replicate (n - length s) 48 ++ s

abbrev pub last_byte : Buffer → ℕ
last_byte [] = 0
last_byte (b ∷ []) = b
last_byte (b ∷ c ∷ bs) = last_byte (c ∷ bs)

-- `hotp`: `& 0x0f` and `& 0x7fffffff` are remainders.
unfoldable pub hotp : (Buffer → Buffer → Buffer) → Buffer → ℕ → Text
unfolding be64 pad_zeros
hotp hmac secret counter =
    let mac = hmac secret (be64 counter) in
    pad_zeros digits (decimal (read_be32 (drop (last_byte mac % 16) mac) % 2147483648 % 1000000))

abbrev pub drop_spaces : Text → Text
drop_spaces [] = []
drop_spaces (c ∷ s) = let rest = drop_spaces s in if is_space c then rest else c ∷ rest

-- `/^\d{6}$/`
abbrev pub is_code : Text → Bool
is_code s = (length s == digits) && all_chars is_digit s

-- The loop over the steps: the first that matches.
unfoldable pub first_match : (ℕ → Text) → Text → List ℕ → Option ℕ
first_match code_of clean [] = none
first_match code_of clean (step ∷ steps) =
    let rest = first_match code_of clean steps in
    if text_beq (code_of step) clean then some step else rest

-- `lastUsedStep !== null && matched <= lastUsedStep`
abbrev pub is_used : Option ℕ → ℕ → Bool
is_used none step = Bool.false
is_used (some last) step = leb step last

-- `verifyTotp`. At step 0, in the first half minute of 1970, the source throws for the step before.
unfoldable pub verify_totp : (Buffer → Buffer → Buffer) → Buffer → Text → Option ℕ → ℕ → Option ℕ
unfolding current_step first_match
verify_totp hmac secret code last now_ms =
    let clean = drop_spaces code in
    let now = current_step now_ms in
    if is_code clean
    then elim (first_match (hotp hmac secret) clean ((now - 1) ∷ now ∷ (now + 1) ∷ [])) [
      | none ↦ none
      | some matched ↦ if is_used last matched then none else some matched
    ]
    else none
