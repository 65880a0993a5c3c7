-- ===== src/Front/Config.antt =====
-- server/src/front/config.ts: the list of extra ports.
pub mod Ports
use wa_logger.Base.{
  ℕ, zero, suc, ◌+◌, ◌-◌, ◌≤◌, ◌<◌, ◌≡◌, refl, Bool, true, false, Option, none, some, List, [], ◌∷◌,
  ◌++◌, if◌then◌else◌, ◌==◌, ltb, leb, ◌&&◌, ◌||◌, not, length, drop, arith,
}
use wa_logger.Base.Text.{Text, split, trim, is_digit, all_chars, number, before}

abbrev pub is_empty : Text → Bool
is_empty [] = true
is_empty (c ∷ s) = false

-- `\d{1,5}`
abbrev pub is_port_text : Text → Bool
is_port_text s = not (is_empty s) && (leb (length s) 5 && all_chars is_digit s)

-- The match of one part: both ends of its range.
unfoldable pub port_range : Text → Option (ℕ × ℕ)
port_range s =
    let lo = before b'-' s in
    let rest = drop (length lo) s in
    if is_port_text lo && (is_empty rest || is_port_text (drop 1 rest))
    then (let a = number lo in
        let b = if is_empty rest then a else number (drop 1 rest) in
        if ltb a 1 || (ltb 65_535 b || (ltb b a || ltb 200 (b - a))) then none else some (a, b))
    else none

-- The `for` loop: adds the ports from `p` on, `n` of them, to the set.
abbrev pub member : ℕ → List ℕ → Bool
member p [] = false
member p (x ∷ xs) = x == p || member p xs

unfoldable pub add_ports : ℕ → ℕ → List ℕ → List ℕ
add_ports zero p out = out
add_ports (suc n) p out = add_ports n (p + 1) (if member p out then out else out ++ (p ∷ []))

unfoldable pub add_parts : List Text → List ℕ → Option (List ℕ)
add_parts [] out = some out
add_parts (part ∷ parts) out =
    if is_empty (trim part) then add_parts parts out else elim (port_range (trim part)) [
      | none ↦ none
      | some (a, b) ↦ add_parts parts (add_ports (b - a + 1) a out)
    ]

-- `sort((a, b) => a - b)`
unfoldable pub insert : ℕ → List ℕ → List ℕ
insert p [] = p ∷ []
insert p (x ∷ xs) = if leb p x then p ∷ x ∷ xs else x ∷ insert p xs

unfoldable pub sort : List ℕ → List ℕ
sort [] = []
sort (p ∷ ps) = insert p (sort ps)

-- `parsePortList`
unfoldable pub parse_port_list : Option Text → Option (List ℕ)
parse_port_list spec = elim (add_parts (split b',' (elim spec [ none ↦ [] | some s ↦ s ])) []) [
  | none ↦ none
  | some out ↦ some (sort out)
]
