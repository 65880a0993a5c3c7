-- ===== src/Front/Admin/Ports.antt =====
-- The port of every user is one that the admin has opened.
use wa_logger.Base.{
  ℕ, ◌≡◌, refl, ap, ◌∙◌, true, false, Option, none, List, [], ◌∷◌, ◌==◌, ==_iff, ◌||◌, any, is_some,
  arith, inl, inr, Bool-cases,
}
use wa_logger.Base.Text.{Text}
use wa_logger.Front.Rows.{
  UserRow, UserRole, ListenerRow, SystemRepo, given_id, same_name, insert_user, without,
  update_user, create_user, delete_user, set_port, set_disabled, users_on_port, users_where,
  on_port, find_listener, put_listener, without_listener, upsert_listener, delete_listener, audit,
}
use wa_logger.Front.Admin.Changes.{IsListed, IsKept, change-keeps}
use wa_logger.Front.Gateway.{Gateway, Request}
use wa_logger.Front.Admin.{Change, change}

abbrev pub AreListed : List ListenerRow → List UserRow → Type 0
AreListed ls [] = Unit
AreListed ls (u ∷ us) = IsListed ls u.port × AreListed ls us

abbrev pub IsHeld : SystemRepo → Type 0
IsHeld r = AreListed r.listeners r.users

insert_user-AreListed :
    (ls : List ListenerRow) (u : UserRow) (us : List UserRow)
    → IsListed ls u.port
    → AreListed ls us
    → AreListed ls (insert_user u us)
insert_user-AreListed ls u [] h k = (h, tt)
insert_user-AreListed ls u (v ∷ vs) h (k, ks) =
    ground (arith, h, k, ks, insert_user-AreListed ls u vs h ks)

without-AreListed :
    (ls : List ListenerRow) (id : ℕ) (us : List UserRow)
    → AreListed ls us
    → AreListed ls (without id us)
without-AreListed ls id [] h = tt
without-AreListed ls id (u ∷ us) (k, ks) = elim (Bool-cases (u.id == id)) [
  | inl here ↦ rw here (without-AreListed ls id us ks)
  | inr other ↦ rw other (k, without-AreListed ls id us ks)
]

update_user-AreListed :
    (ls : List ListenerRow) (id : ℕ) (f : UserRow → UserRow) (us : List UserRow)
    → ((u : UserRow) → IsListed ls u.port → IsListed ls (f u).port)
    → AreListed ls us
    → AreListed ls (update_user id f us)
update_user-AreListed ls id f [] h k = tt
update_user-AreListed ls id f (u ∷ us) h (k, ks) = elim (Bool-cases (u.id == id)) [
  | inl here ↦ rw here (h u k, update_user-AreListed ls id f us h ks)
  | inr other ↦ rw other (k, update_user-AreListed ls id f us h ks)
]

find-put_listener :
    (p : ℕ) (l : ListenerRow) (ls : List ListenerRow)
    → is_some (find_listener p ls) ≡ true
    → is_some (find_listener p (put_listener l ls)) ≡ true
find-put_listener p l [] h = absurd (ground (arith, h))
find-put_listener p l (k ∷ ks) h = ground (arith, h, find-put_listener p l ks, ==_iff k.port p)

find-without_listener :
    (p q : ℕ) (ls : List ListenerRow)
    → (p == q) ≡ false
    → find_listener p (without_listener q ls) ≡ find_listener p ls
find-without_listener p q [] n = refl
find-without_listener p q (k ∷ ks) n =
    ground (arith, n, find-without_listener p q ks n, ==_iff k.port p, ==_iff k.port q, ==_iff p q)

more-AreListed :
    (l : ListenerRow) (ls : List ListenerRow) (us : List UserRow)
    → AreListed ls us
    → AreListed (put_listener l ls) us
more-AreListed l ls [] h = tt
more-AreListed l ls (u ∷ us) (k, ks) =
    ((λ p e. find-put_listener p l ls (k p e)), more-AreListed l ls us ks)

-- A port that no user has can go.
fewer-AreListed :
    (q : ℕ) (ls : List ListenerRow) (us : List UserRow)
    → users_where (on_port q) us ≡ []
    → AreListed ls us
    → AreListed (without_listener q ls) us
fewer-AreListed q ls [] n h = tt
fewer-AreListed q ls (u ∷ us) n (k, ks) = elim (Bool-cases (on_port q u)) [
  | inl there ↦ absurd (ground (arith, n, there))
  | inr free ↦ (
    (λ p e.
        let other : (p == q) ≡ false = ground (arith, free, e) in
        ap is_some (find-without_listener p q ls other) ∙ k p e),
    fewer-AreListed q ls us (ground (arith, n, free)) ks,
  )
]

create_user-IsHeld :
    (wish : Option ℕ) (name : Text) (role : UserRole) (port : Option ℕ) (now : ℕ) (r : SystemRepo)
    → IsHeld r
    → IsListed r.listeners port
    → IsHeld (create_user wish name role port now r).1
unfolding create_user
create_user-IsHeld wish name role port now r h l =
    let id = given_id wish r.next_id in
    elim (Bool-cases (any (λ (u : UserRow). u.id == id || same_name u.username name) r.users)) [
      | inl taken ↦ rw (create_user, taken) h
      | inr free ↦
          rw (create_user, free)
            (insert_user-AreListed r.listeners
              (record {
                id = id;
                username = name;
                role = role;
                disabled = false;
                port = port;
                created_at = now;
                last_login_at = none;
              })
              r.users l h)
    ]

IsHeld-IsKept : IsKept IsHeld
unfolding delete_user set_port set_disabled upsert_listener delete_listener users_on_port audit
IsHeld-IsKept = record {
  created = λ r name port now h l. create_user-IsHeld none name UserRole.user port now r h l;
  deleted = λ r id h. without-AreListed r.listeners id r.users h;
  moved = λ r id port h l.
      update_user-AreListed r.listeners id (λ v. record v { port = port }) r.users (λ v k. l) h;
  disabled = λ r id b h.
      update_user-AreListed r.listeners id (λ v. record v { disabled = b }) r.users (λ v k. k) h;
  listed = λ r port origin now h.
      more-AreListed (record { port = port; public_origin = origin; created_at = now }) r.listeners
        r.users h;
  unlisted = λ r port h n. fewer-AreListed port r.listeners r.users n h;
  audited = λ r event ip actor of now h. h;
}

-- Whatever the admin does, and whatever workers and the network answer, every user's port is the default one or one
-- of the listeners: a port with users on it is not closed, and no user is put on one that is not open.
pub change-IsHeld :
    (req : Request) (admin now : ℕ) (c : Change) (g : Gateway)
    → IsHeld g.repo
    → IsHeld (change req admin now c g).repo
change-IsHeld = change-keeps IsHeld IsHeld-IsKept
