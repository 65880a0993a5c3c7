-- ===== src/Front/Admin/Distinct.antt =====
-- server/src/front/db.ts: lists of users with distinct ids and names, and what the updates of a list keep.
use wa_logger.Base.{
  ℕ, ◌≤◌, ◌<◌, ◌≡◌, refl, ap, ◌∙◌, Bool, false, List, [], ◌∷◌, ◌==◌, ==_iff, ltb, ◌||◌, any, arith,
  inl, inr, Bool-cases,
}
use wa_logger.Base.Text.{Text, text_beq_iff, text_eq, lower}
use wa_logger.Front.Rows.{UserRow, same_name, insert_user, without, update_user}

abbrev pub clash : UserRow → UserRow → Bool
clash u v = v.id == u.id || same_name v.username u.username

-- `clash` by what it reads.
abbrev clash_by : UserRow → ℕ → Text → Bool
clash_by v id name = v.id == id || same_name v.username name

abbrev pub AreDistinct : List UserRow → Type 0
AreDistinct [] = Unit
AreDistinct (u ∷ us) = (any (clash u) us ≡ false) × AreDistinct us

abbrev pub AreBelow : ℕ → List UserRow → Type 0
AreBelow n [] = Unit
AreBelow n (u ∷ us) = (u.id < n) × AreBelow n us

clash_comm : (u v : UserRow) → clash u v ≡ clash v u
clash_comm u v = ground (
  arith,
  ==_iff u.id v.id,
  ==_iff v.id u.id,
  text_beq_iff (lower u.username) (lower v.username),
  text_beq_iff (lower v.username) (lower u.username),
)

pub any-insert_user :
    (p : UserRow → Bool) (u : UserRow) (us : List UserRow)
    → any p (insert_user u us) ≡ (p u || any p us)
any-insert_user p u [] = refl
any-insert_user p u (v ∷ vs) = ground (arith, any-insert_user p u vs)

or_left : (a b : Bool) → (a || b) ≡ false → a ≡ false
or_left a b h = ground (arith, h)

or_right : (a b : Bool) → (a || b) ≡ false → b ≡ false
or_right a b h = ground (arith, h)

pub clash_none : (a b : Bool) → a ≡ false → b ≡ false → (a || b) ≡ false
clash_none a b h k = ground (arith, h, k)

pub insert_user-AreDistinct :
    (u : UserRow) (us : List UserRow)
    → any (clash u) us ≡ false
    → AreDistinct us
    → AreDistinct (insert_user u us)
insert_user-AreDistinct u [] n d = (refl, tt)
insert_user-AreDistinct u (v ∷ vs) n (e, d) = elim (Bool-cases (ltb u.id v.id)) [
  | inl first ↦ rw first (n, (e, d))
  | inr later ↦ rw later (
    any-insert_user (clash v) u vs
        ∙ clash_none (clash v u) (any (clash v) vs)
            (clash_comm v u ∙ or_left (clash u v) (any (clash u) vs) n) e,
    insert_user-AreDistinct u vs (or_right (clash u v) (any (clash u) vs) n) d,
  )
]

pub any-without :
    (p : UserRow → Bool) (id : ℕ) (us : List UserRow)
    → any p us ≡ false
    → any p (without id us) ≡ false
any-without p id [] h = refl
any-without p id (u ∷ us) h = ground (arith, h, any-without p id us)

pub without-AreDistinct :
    (id : ℕ) (us : List UserRow) → AreDistinct us → AreDistinct (without id us)
without-AreDistinct id [] d = tt
without-AreDistinct id (u ∷ us) (e, d) = elim (Bool-cases (u.id == id)) [
  | inl here ↦ rw here (without-AreDistinct id us d)
  | inr other ↦ rw other (any-without (clash u) id us e, without-AreDistinct id us d)
]

pub without-AreBelow : (id n : ℕ) (us : List UserRow) → AreBelow n us → AreBelow n (without id us)
without-AreBelow id n [] h = tt
without-AreBelow id n (u ∷ us) (l, h) = elim (Bool-cases (u.id == id)) [
  | inl here ↦ rw here (without-AreBelow id n us h)
  | inr other ↦ rw other (l, without-AreBelow id n us h)
]

pub insert_user-AreBelow :
    (n : ℕ) (u : UserRow) (us : List UserRow)
    → u.id < n
    → AreBelow n us
    → AreBelow n (insert_user u us)
insert_user-AreBelow n u [] l h = (l, tt)
insert_user-AreBelow n u (v ∷ vs) l (k, h) =
    ground (arith, l, k, h, insert_user-AreBelow n u vs l h)

pub AreBelow-more : (m n : ℕ) (us : List UserRow) → m ≤ n → AreBelow m us → AreBelow n us
AreBelow-more m n [] l h = tt
AreBelow-more m n (u ∷ us) l (k, h) = (omega (arith, l, k), AreBelow-more m n us l h)

-- A change of a row that keeps its id and its name.
abbrev pub Keeps : (UserRow → UserRow) → Type 0
Keeps f = (u : UserRow) → ((f u).id ≡ u.id) × ((f u).username ≡ u.username)

clash_unchanged : (f : UserRow → UserRow) (u : UserRow) → Keeps f → clash (f u) ≡ clash u
clash_unchanged f u k i v = clash_by v ((k u).0 i) ((k u).1 i)

any-update_user :
    (w : UserRow) (id : ℕ) (f : UserRow → UserRow) (us : List UserRow)
    → Keeps f
    → any (clash w) (update_user id f us) ≡ any (clash w) us
any-update_user w id f [] k = refl
any-update_user w id f (u ∷ us) k = elim (Bool-cases (u.id == id)) [
  | inl here ↦ rw (here, (k u).0, (k u).1, any-update_user w id f us k)
  | inr other ↦ rw (other, any-update_user w id f us k)
]

pub update_user-AreDistinct :
    (id : ℕ) (f : UserRow → UserRow) (us : List UserRow)
    → Keeps f
    → AreDistinct us
    → AreDistinct (update_user id f us)
update_user-AreDistinct id f [] k d = tt
update_user-AreDistinct id f (u ∷ us) k (e, d) = elim (Bool-cases (u.id == id)) [
  | inr other ↦ rw other (any-update_user u id f us k ∙ e, update_user-AreDistinct id f us k d)
  | inl here ↦ rw here (
    any-update_user (f u) id f us k ∙ ap (λ c. any c us) (clash_unchanged f u k) ∙ e,
    update_user-AreDistinct id f us k d,
  )
]

pub update_user-AreBelow :
    (id n : ℕ) (f : UserRow → UserRow) (us : List UserRow)
    → Keeps f
    → AreBelow n us
    → AreBelow n (update_user id f us)
update_user-AreBelow id n f [] k h = tt
update_user-AreBelow id n f (u ∷ us) k (l, h) =
    (ground (arith, l, (k u).0), update_user-AreBelow id n f us k h)

pub any-same_ids :
    (id of : ℕ) (f : UserRow → UserRow) (us : List UserRow)
    → Keeps f
    → any (λ u. u.id == id) (update_user of f us) ≡ any (λ u. u.id == id) us
any-same_ids id of f [] k = refl
any-same_ids id of f (u ∷ us) k = elim (Bool-cases (u.id == of)) [
  | inl here ↦ rw (here, (k u).0, any-same_ids id of f us k)
  | inr other ↦ rw (other, any-same_ids id of f us k)
]
