-- ===== src/Calls/Hourly.antt =====
-- How many calls can be placed: `charge` as a sliding window over the last hour.
use wa_logger.Base.{
  ℕ, ◌+◌, ◌≤◌, ◌≡◌, refl, ◌∙◌, sym, ap, Bool, List, [], ◌∷◌, ◌++◌, if◌then◌else◌, ltb, leb, arith,
  inl, inr, Bool-cases, length, length-append, Result, ok, err,
}
use wa_logger.Calls.Clients.{drop_started, charge, max_calls_per_hour}

-- How many of the times are at most an hour before the given one.
unfoldable pub recent : ℕ → List ℕ → ℕ
recent now [] = 0
recent now (t ∷ ts) = let n = recent now ts in if leb now (t + 3_600_000) then n + 1 else n

abbrev admitted : ℕ → Result Bool → List ℕ → List ℕ
admitted now (ok b) placed = placed ++ (now ∷ [])
admitted now (err e) placed = placed

-- Attempts to place calls at the given times: the times of those that `charge` let through.
unfoldable pub placed_of : List ℕ → List ℕ → List ℕ → List ℕ
unfolding charge
placed_of [] started placed = placed
placed_of (now ∷ rest) started placed =
    placed_of rest (charge now started).1 (admitted now (charge now started).0 placed)

abbrev pub Ordered : ℕ → List ℕ → ℕ → Type 0
Ordered from [] to = from ≤ to
Ordered from (t ∷ ts) to = (from ≤ t) × Ordered t ts to

recent_le : (now : ℕ) (ts : List ℕ) → recent now ts ≤ length ts
unfolding recent
recent_le now [] = omega arith
recent_le now (t ∷ ts) = ground (arith, recent_le now ts)

recent-append : (now : ℕ) (xs ys : List ℕ) → recent now (xs ++ ys) ≡ recent now xs + recent now ys
unfolding recent
recent-append now [] ys = omega arith
recent-append now (x ∷ xs) ys = ground (arith, recent-append now xs ys)

recent-later : (now later : ℕ) (ts : List ℕ) → now ≤ later → recent later ts ≤ recent now ts
unfolding recent
recent-later now later [] h = omega arith
recent-later now later (t ∷ ts) h = ground (arith, recent-later now later ts h)

recent-drop_started :
    (now later : ℕ) (ts : List ℕ)
    → now ≤ later
    → recent later (drop_started now ts) ≡ recent later ts
unfolding recent drop_started
recent-drop_started now later [] h = refl
recent-drop_started now later (t ∷ ts) h = ground (arith, recent-drop_started now later ts h)

-- The list that is kept tells of every later hour how many calls were placed in it.
abbrev IsWindow : ℕ → List ℕ → List ℕ → Type 0
IsWindow now started placed =
    ((later : ℕ) → now ≤ later → recent later started ≡ recent later placed) × (length started ≤ 30)

drop_started_le : (now : ℕ) (ts : List ℕ) → length (drop_started now ts) ≤ length ts
unfolding drop_started
drop_started_le now [] = omega arith
drop_started_le now (t ∷ ts) = ground (arith, drop_started_le now ts)

charge-IsWindow :
    (from now : ℕ) (started placed : List ℕ)
    → from ≤ now
    → IsWindow from started placed
    → IsWindow now (charge now started).1 (admitted now (charge now started).0 placed)
unfolding charge
charge-IsWindow from now started placed h (w, len) =
    elim (Bool-cases (ltb (length (drop_started now started)) max_calls_per_hour)) [
      | inl free ↦
          rw (charge, free)
            (
              λ later l.
                  recent-append later (drop_started now started) (now ∷ [])
                  ∙ ap (λ n. n + recent later (now ∷ []))
                      (recent-drop_started now later started l ∙ w later (omega arith))
                  ∙ sym (recent-append later placed (now ∷ [])),
              ground (arith, length-append (drop_started now started) (now ∷ [])),
            )
      | inr full ↦
          rw (charge, full)
            (
              λ later l. recent-drop_started now later started l ∙ w later (omega arith),
              omega (arith, drop_started_le now started, len),
            )
    ]

placed_le :
    (times : List ℕ) (from now : ℕ) (started placed : List ℕ)
    → Ordered from times now
    → IsWindow from started placed
    → recent now (placed_of times started placed) ≤ 30
unfolding placed_of
placed_le [] from now started placed o (w, len) = omega (arith, w now o, recent_le now started, len)
placed_le (t ∷ ts) from now started placed o w =
    placed_le ts t now (charge t started).1 (admitted t (charge t started).0 placed) o.1
      (charge-IsWindow from t started placed o.0 w)

-- However often calls are asked for, at times that do not fall, at most 30 of those that are let through
-- lie in the hour that ends at any time from the last of them on.
pub calls_per_hour :
    (times : List ℕ) (from now : ℕ)
    → Ordered from times now
    → recent now (placed_of times [] []) ≤ 30
calls_per_hour times from now o = placed_le times from now [] [] o (λ later l. refl, omega arith)
