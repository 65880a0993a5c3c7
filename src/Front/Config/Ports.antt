-- ===== src/Front/Config/Ports.antt =====
-- What `parsePortList` makes of a list of ports and ranges.
use wa_logger.Base.{
  ℕ, zero, suc, ◌+◌, ◌-◌, ◌≤◌, ◌<◌, ◌≡◌, refl, sym, ap, ◌∙◌, Bool, true, false, Option, none, some,
  List, [], ◌∷◌, ◌++◌, ◌==◌, ==_iff, ltb, leb, ◌&&◌, ◌||◌, arith, inl, inr, Bool-cases,
  Option-cases,
}
use mathlib.Core.Path.{subst}
use wa_logger.Base.Text.{Text, split, trim, before}
use wa_logger.Front.Config.{
  is_empty, port_range, member, add_ports, add_parts, insert, sort, parse_port_list,
}

-- Some part of the list is a range that holds the port.
unfoldable pub covers : ℕ → List Text → Bool
covers p [] = false
covers p (part ∷ parts) =
    elim (port_range (trim part)) [ none ↦ false | some (a, b) ↦ leb a p && leb p b ]
    || covers p parts

-- Each port is larger than the one before.
abbrev pub IsAbove : ℕ → List ℕ → Type 0
IsAbove p [] = Unit
IsAbove p (x ∷ xs) = (p < x) × IsAbove p xs

abbrev pub IsAscending : List ℕ → Type 0
IsAscending [] = Unit
IsAscending (x ∷ xs) = IsAbove x xs × IsAscending xs

abbrev IsUnique : List ℕ → Type 0
IsUnique [] = Unit
IsUnique (x ∷ xs) = (member x xs ≡ false) × IsUnique xs

abbrev AreValid : List ℕ → Type 0
AreValid [] = Unit
AreValid (x ∷ xs) = (1 ≤ x) × (x ≤ 65_535) × AreValid xs

member-append : (q p : ℕ) (xs : List ℕ) → member q (xs ++ (p ∷ [])) ≡ (member q xs || p == q)
member-append q p [] = ground arith
member-append q p (x ∷ xs) = ground (arith, member-append q p xs)

member-add_ports :
    (n p q : ℕ) (out : List ℕ)
    → member q (add_ports n p out) ≡ (member q out || (leb p q && ltb q (p + n)))
unfolding add_ports
member-add_ports zero p q out = ground arith
member-add_ports (suc n) p q out = elim (Bool-cases (member p out)) [
  | inl there ↦ rw there (ground (arith, member-add_ports n (p + 1) q out, ==_iff p q, there))
  | inr new ↦ rw new (
      ground
        (arith, member-add_ports n (p + 1) q (out ++ (p ∷ [])), member-append q p out, ==_iff p q))
]

append-IsUnique :
    (p : ℕ) (xs : List ℕ) → IsUnique xs → member p xs ≡ false → IsUnique (xs ++ (p ∷ []))
append-IsUnique p [] u h = (refl, tt)
append-IsUnique p (x ∷ xs) (n, u) h = (
  ground (arith, n, h, member-append x p xs, ==_iff p x, ==_iff x p),
  append-IsUnique p xs u (ground (arith, h)),
)

add_ports-IsUnique : (n p : ℕ) (out : List ℕ) → IsUnique out → IsUnique (add_ports n p out)
unfolding add_ports
add_ports-IsUnique zero p out u = u
add_ports-IsUnique (suc n) p out u = elim (Bool-cases (member p out)) [
  | inl there ↦ rw there (add_ports-IsUnique n (p + 1) out u)
  | inr new ↦ rw new (add_ports-IsUnique n (p + 1) (out ++ (p ∷ [])) (append-IsUnique p out u new))
]

port_range-bounds :
    (s : Text) (a b : ℕ) → port_range s ≡ some (a, b) → (1 ≤ a) × (a ≤ b) × (b ≤ 65_535)
unfolding port_range
port_range-bounds s a b h = (ground (arith, h), ground (arith, h), ground (arith, h))

port_range-empty : (s : Text) → is_empty s ≡ true → port_range s ≡ none
unfolding port_range before
port_range-empty [] h = refl
port_range-empty (c ∷ s) h = absurd (ground (arith, h))

covers-blank :
    (q : ℕ) (part : Text) (parts : List Text)
    → is_empty (trim part) ≡ true
    → covers q (part ∷ parts) ≡ covers q parts
unfolding covers
covers-blank q part parts h = elim (Option-cases (port_range (trim part))) [
  | inl none_there ↦ ground (arith, none_there)
  | inr (r, e) ↦ absurd (ground (arith, port_range-empty (trim part) h, e))
]

add_parts_lem :
    (parts : List Text) (out out' : List ℕ) (q : ℕ)
    → IsUnique out
    → add_parts parts out ≡ some out'
    → IsUnique out' × (member q out' ≡ (member q out || covers q parts))
unfolding add_parts covers
add_parts_lem [] out out' q u h =
    let e : out ≡ out' = ground (arith, h) in
    subst (λ o. IsUnique o × (member q o ≡ (member q out || false))) e (u, ground arith)
add_parts_lem (part ∷ parts) out out' q u h = elim (Bool-cases (is_empty (trim part))) [
  | inl blank ↦
      let next : add_parts parts out ≡ some out' = ground (arith, h, blank) in
      let (u', m) = add_parts_lem parts out out' q u next in
      (u', m ∙ ap (λ b. member q out || b) (sym (covers-blank q part parts blank)))
  | inr full ↦ elim (Option-cases (port_range (trim part))) [
    | inl bad ↦ absurd (ground (arith, h, full, bad))
    | inr (r, good) ↦
        let next : add_parts parts (add_ports (r.1 - r.0 + 1) r.0 out) ≡ some out' =
          ground (arith, h, full, good) in
        let (u', m) =
          add_parts_lem parts (add_ports (r.1 - r.0 + 1) r.0 out) out' q
            (add_ports-IsUnique (r.1 - r.0 + 1) r.0 out u) next in
        (
          u',
          m
              ∙ ground (
                arith,
                member-add_ports (r.1 - r.0 + 1) r.0 q out,
                good,
                port_range-bounds (trim part) r.0 r.1 good,
              ),
        )
  ]
]

member-insert : (q p : ℕ) (xs : List ℕ) → member q (insert p xs) ≡ (p == q || member q xs)
unfolding insert
member-insert q p [] = refl
member-insert q p (x ∷ xs) = ground (arith, member-insert q p xs)

insert-IsAbove : (p q : ℕ) (xs : List ℕ) → q < p → IsAbove q xs → IsAbove q (insert p xs)
unfolding insert
insert-IsAbove p q [] l h = (l, tt)
insert-IsAbove p q (x ∷ xs) l (a, h) = ground (arith, insert-IsAbove p q xs l h)

IsAbove-less : (p q : ℕ) (xs : List ℕ) → q < p → IsAbove p xs → IsAbove q xs
IsAbove-less p q [] l h = tt
IsAbove-less p q (x ∷ xs) l (a, h) = (omega (arith, l, a), IsAbove-less p q xs l h)

insert-IsAscending :
    (p : ℕ) (xs : List ℕ) → IsAscending xs → member p xs ≡ false → IsAscending (insert p xs)
unfolding insert
insert-IsAscending p [] h n = (tt, tt)
insert-IsAscending p (x ∷ xs) (a, h) n = elim (Bool-cases (leb p x)) [
  | inl le ↦
      let lt : p < x = ground (arith, n, le, ==_iff x p) in
      rw le ((lt, IsAbove-less x p xs lt a), (a, h))
  | inr gt ↦
      rw gt (
        insert-IsAbove p x xs (ground (arith, gt)) a,
        insert-IsAscending p xs h (ground (arith, n)),
      )
]

sort_lem :
    (xs : List ℕ) (q : ℕ) → IsUnique xs → IsAscending (sort xs) × (member q (sort xs) ≡ member q xs)
unfolding sort
sort_lem [] q u = (tt, refl)
sort_lem (x ∷ xs) q (n, u) = (
  insert-IsAscending x (sort xs) (sort_lem xs x u).0 ((sort_lem xs x u).1 ∙ n),
  member-insert q x (sort xs) ∙ ap (λ b. x == q || b) (sort_lem xs q u).1,
)

covers-bounds : (q : ℕ) (parts : List Text) → covers q parts ≡ true → (1 ≤ q) × (q ≤ 65_535)
unfolding covers
covers-bounds q [] h = absurd (ground (arith, h))
covers-bounds q (part ∷ parts) h = elim (Bool-cases (covers q parts)) [
  | inl later ↦ covers-bounds q parts later
  | inr here ↦ elim (Option-cases (port_range (trim part))) [
    | inl bad ↦ absurd (ground (arith, h, here, bad))
    | inr (r, good) ↦
        let b = port_range-bounds (trim part) r.0 r.1 good in
        (ground (arith, h, here, good, b), ground (arith, h, here, good, b))
  ]
]

-- The parts of the setting.
abbrev pub parts_of : Option Text → List Text
parts_of none = split b',' []
parts_of (some s) = split b',' s

refused :
    (spec : Option Text) (out : List ℕ)
    → parse_port_list spec ≡ some out
    → add_parts (parts_of spec) [] ≡ none
    → ⊥
unfolding parse_port_list
refused none out h bad = ground (arith, h, bad)
refused (some s) out h bad = ground (arith, h, bad)

accepted :
    (spec : Option Text) (ports out : List ℕ)
    → parse_port_list spec ≡ some out
    → add_parts (parts_of spec) [] ≡ some ports
    → sort ports ≡ out
unfolding parse_port_list
accepted none ports out h good = ground (arith, h, good)
accepted (some s) ports out h good = ground (arith, h, good)

-- A list of ports that is accepted comes out strictly ascending, and holds exactly the ports of its ranges, all of
-- them between 1 and 65535.
pub parse_port_list_lem :
    (spec : Option Text) (out : List ℕ)
    → parse_port_list spec ≡ some out
    → IsAscending out
      × ((p : ℕ) → member p out ≡ covers p (parts_of spec))
      × ((p : ℕ) → member p out ≡ true → (1 ≤ p) × (p ≤ 65_535))
unfolding parse_port_list
parse_port_list_lem spec out h = elim (Option-cases (add_parts (parts_of spec) [])) [
  | inl bad ↦ absurd (refused spec out h bad)
  | inr (ports, good) ↦
      let e : sort ports ≡ out = accepted spec ports out h good in
      let found = λ (p : ℕ). add_parts_lem (parts_of spec) [] ports p tt good in
      let holds : (p : ℕ) → member p (sort ports) ≡ covers p (parts_of spec) =
        λ p. (sort_lem ports p (found p).0).1 ∙ (found p).1 in
      subst
        (λ o.
          IsAscending o
          × ((p : ℕ) → member p o ≡ covers p (parts_of spec))
          × ((p : ℕ) → member p o ≡ true → (1 ≤ p) × (p ≤ 65_535)))
        e
        (
          (sort_lem ports 0 (found 0).0).0,
          holds,
          λ p m. covers-bounds p (parts_of spec) (sym (holds p) ∙ m),
        )
]
