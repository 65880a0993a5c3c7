-- ===== src/Base/JsMap.antt =====
-- JavaScript's `Map`: entries in the order in which their keys were first inserted.
use mathlib.Core.Path.{◌≡◌, refl, ap}
use mathlib.Core.Logic.{inl, inr}
use mathlib.Core.Option.{Option, none, some}
use mathlib.Core.List.{List, [], ◌∷◌}
use native.Mathlib.Omega.{arith}
use wa_logger.Base.Tests.{if◌then◌else◌, Bool-cases}
use wa_logger.Base.Eq.{Eq}

abbrev pub JsMap {ℓ κ} : Type ℓ → Type κ → Type (ℓ ⊔ κ)
JsMap K V = List (K × V)

module _ {ℓ κ} {K : Type ℓ} {V : Type κ} ⦃e : Eq K⦄ where
  unfoldable pub get : K → JsMap K V → Option V
  get k [] = none
  get k ((j, v) ∷ m) = if e.beq j k then some v else get k m

  -- A key that is there keeps its place, a new one goes to the end.
  unfoldable pub set : K → V → JsMap K V → JsMap K V
  set k v [] = (k, v) ∷ []
  set k v ((j, w) ∷ m) = if e.beq j k then (j, v) ∷ m else (j, w) ∷ set k v m

  unfoldable pub delete : K → JsMap K V → JsMap K V
  delete k [] = []
  delete k ((j, v) ∷ m) = let rest = delete k m in if e.beq j k then rest else (j, v) ∷ rest

  pub get-set :
      (k j : K) (v : V) (m : JsMap K V)
      → get j (set k v m) ≡ (if e.beq k j then some v else get j m)
  unfolding get set
  get-set k j v [] = refl
  get-set k j v ((i, w) ∷ m) =
      ground (arith, e.beq_iff k j, e.beq_iff i k, e.beq_iff i j, get-set k j v m)

  pub get-delete :
      (k j : K) (m : JsMap K V) → get j (delete k m) ≡ (if e.beq k j then none else get j m)
  unfolding get delete
  get-delete k j [] = ground arith
  get-delete k j ((i, w) ∷ m) =
      ground (arith, e.beq_iff k j, e.beq_iff i k, e.beq_iff i j, get-delete k j m)

  pub get-set_self : (k : K) (v : V) (m : JsMap K V) → get k (set k v m) ≡ some v
  get-set_self k v m = ground (arith, get-set k k v m, e.beq_iff k k)

  -- A key stands in one entry only.
  abbrev pub IsUnique : JsMap K V → Type κ
  IsUnique [] = Unit
  IsUnique ((k, v) ∷ m) = (get k m ≡ none) × IsUnique m

  pub set-IsUnique : (k : K) (v : V) (m : JsMap K V) → IsUnique m → IsUnique (set k v m)
  unfolding get set
  set-IsUnique k v [] u = (refl, tt)
  set-IsUnique k v ((j, w) ∷ m) u = elim (Bool-cases (e.beq j k)) [
    | inl same ↦ rw same u
    | inr other ↦
        rw other
          (ground (arith, get-set k j v m, e.beq_iff j k, e.beq_iff k j), set-IsUnique k v m u.1)
  ]

  pub delete-IsUnique : (k : K) (m : JsMap K V) → IsUnique m → IsUnique (delete k m)
  unfolding get delete
  delete-IsUnique k [] u = tt
  delete-IsUnique k ((j, w) ∷ m) u = elim (Bool-cases (e.beq j k)) [
    | inl same ↦ rw same (delete-IsUnique k m u.1)
    | inr other ↦ rw other (ground (arith, get-delete k j m), delete-IsUnique k m u.1)
  ]

  -- A second write to a key leaves what the second write alone would.
  pub set-set : (k : K) (v w : V) (m : JsMap K V) → set k v (set k w m) ≡ set k v m
  unfolding set
  set-set k v w [] = rw ((e.beq_iff k k).1 refl)
  set-set k v w ((j, x) ∷ m) = elim (Bool-cases (e.beq j k)) [
    | inl same ↦ rw (same, same)
    | inr other ↦ rw (other, other) (ap (λ l. (j, x) ∷ l) (set-set k v w m))
  ]
