-- ===== src/Front/Admin/Users.antt =====
-- The users of the gateway through the changes of server/src/front/admin.ts: their ids and names.
use wa_logger.Base.{
  ℕ, ◌+◌, ◌≤◌, ◌<◌, ◌≡◌, refl, ◌∙◌, Bool, true, false, Option, none, ◌==◌, ==_iff, ltb, ◌||◌, ◌&&◌,
  not, any, max, arith, inl, inr, Bool-cases,
}
use wa_logger.Base.Text.{Text, text_eq}
use wa_logger.Front.Rows.{
  UserRow, UserRole, SystemRepo, same_name, given_id, insert_user, without, update_user,
  create_user, delete_user, set_port, set_disabled, upsert_listener, delete_listener, audit,
}
use wa_logger.Front.Gateway.{Gateway, Request}
use wa_logger.Front.Admin.{Change, change}
use wa_logger.Front.Admin.Distinct.{
  AreDistinct, AreBelow, any-insert_user, clash_none, insert_user-AreDistinct, any-without,
  without-AreDistinct, without-AreBelow, insert_user-AreBelow, AreBelow-more, Keeps,
  update_user-AreDistinct, update_user-AreBelow, any-same_ids,
}
use wa_logger.Front.Admin.Changes.{IsKept, change-keeps}

-- Ids and names are distinct, and `next_id`, which never falls below the given number, is above the ids.
pub record IsSound (n : ℕ) (r : SystemRepo) : Type 0 where
  pub distinct : AreDistinct r.users
  pub below : AreBelow r.next_id r.users
  pub next : n ≤ r.next_id

create_user-IsSound :
    (n : ℕ) (wish : Option ℕ) (name : Text) (role : UserRole) (port : Option ℕ) (now : ℕ)
    (r : SystemRepo)
    → IsSound n r
    → IsSound n (create_user wish name role port now r).1
unfolding create_user
create_user-IsSound n wish name role port now r h =
    let id = given_id wish r.next_id in
    elim (Bool-cases (any (λ (u : UserRow). u.id == id || same_name u.username name) r.users)) [
      | inl taken ↦ rw (create_user, taken) h
      | inr free ↦
          let u : UserRow = record {
            id = id;
            username = name;
            role = role;
            disabled = false;
            port = port;
            created_at = now;
            last_login_at = none;
          } in
          rw (create_user, free)
            (record {
              distinct = insert_user-AreDistinct u r.users free h.distinct;
              below =
                  insert_user-AreBelow (max r.next_id (id + 1)) u r.users (omega arith) (
                    AreBelow-more r.next_id (max r.next_id (id + 1)) r.users (omega arith) h.below);
              next = omega (arith, h.next);
            })
    ]

updated :
    (n id : ℕ) (f : UserRow → UserRow) (r : SystemRepo)
    → Keeps f
    → IsSound n r
    → IsSound n (record r { users = update_user id f r.users })
updated n id f r k h = record {
  distinct = update_user-AreDistinct id f r.users k h.distinct;
  below = update_user-AreBelow id r.next_id f r.users k h.below;
  next = h.next;
}

IsSound-IsKept : (n : ℕ) → IsKept (IsSound n)
unfolding delete_user set_port set_disabled upsert_listener delete_listener audit
IsSound-IsKept n = record {
  created = λ r name port now h l. create_user-IsSound n none name UserRole.user port now r h;
  deleted = λ r id h. record {
    distinct = without-AreDistinct id r.users h.distinct;
    below = without-AreBelow id r.next_id r.users h.below;
    next = h.next;
  };
  moved = λ r id port h l. updated n id (λ v. record v { port = port }) r (λ u. (refl, refl)) h;
  disabled = λ r id b h. updated n id (λ v. record v { disabled = b }) r (λ u. (refl, refl)) h;
  listed = λ r port origin now h. record { distinct = h.distinct; below = h.below; next = h.next };
  unlisted = λ r port h m. record { distinct = h.distinct; below = h.below; next = h.next };
  audited =
      λ r event ip actor of now h. record { distinct = h.distinct; below = h.below; next = h.next };
}

-- The id was given, and no user has it.
abbrev pub is_spent : ℕ → SystemRepo → Bool
is_spent id r = ltb id r.next_id && not (any (λ u. u.id == id) r.users)

unused : (id : ℕ) (r : SystemRepo) → is_spent id r ≡ true → any (λ u. u.id == id) r.users ≡ false
unused id r h = ground (arith, h)

given : (id : ℕ) (r : SystemRepo) → is_spent id r ≡ true → id < r.next_id
given id r h = ground (arith, h)

spent : (id n : ℕ) (b : Bool) → id < n → b ≡ false → (ltb id n && not b) ≡ true
spent id n b l h = ground (arith, l, h)

create_user-spent :
    (id : ℕ) (name : Text) (role : UserRole) (port : Option ℕ) (now : ℕ) (r : SystemRepo)
    → is_spent id r ≡ true
    → is_spent id (create_user none name role port now r).1 ≡ true
unfolding create_user
create_user-spent id name role port now r h =
    elim (Bool-cases
      (any (λ (u : UserRow). u.id == r.next_id || same_name u.username name) r.users)) [
        | inl taken ↦ rw (create_user, taken) h
        | inr free ↦
            let u : UserRow = record {
              id = r.next_id;
              username = name;
              role = role;
              disabled = false;
              port = port;
              created_at = now;
              last_login_at = none;
            } in
            let new : (r.next_id == id) ≡ false =
              ground (arith, given id r h, ==_iff r.next_id id) in
            rw (create_user, free)
              (spent id (max r.next_id (r.next_id + 1))
                (any (λ v. v.id == id) (insert_user u r.users)) (omega (arith, given id r h))
                (any-insert_user (λ v. v.id == id) u r.users
                  ∙ clash_none (r.next_id == id) (any (λ v. v.id == id) r.users) new
                      (unused id r h)))
      ]

spent-update_user :
    (id of : ℕ) (f : UserRow → UserRow) (r : SystemRepo)
    → Keeps f
    → is_spent id r ≡ true
    → is_spent id (record r { users = update_user of f r.users }) ≡ true
spent-update_user id of f r k h =
    spent id r.next_id (any (λ u. u.id == id) (update_user of f r.users)) (given id r h)
      (any-same_ids id of f r.users k ∙ unused id r h)

spent-IsKept : (id : ℕ) → IsKept (λ r. is_spent id r ≡ true)
unfolding delete_user set_port set_disabled upsert_listener delete_listener audit
spent-IsKept id = record {
  created = λ r name port now h l. create_user-spent id name UserRole.user port now r h;
  deleted = λ r of h.
      spent id r.next_id (any (λ u. u.id == id) (without of r.users)) (given id r h)
        (any-without (λ u. u.id == id) of r.users (unused id r h));
  moved = λ r of port h l.
      spent-update_user id of (λ v. record v { port = port }) r (λ u. (refl, refl)) h;
  disabled =
      λ r of b h. spent-update_user id of (λ v. record v { disabled = b }) r (λ u. (refl, refl)) h;
  listed = λ r port origin now h. h;
  unlisted = λ r port h m. h;
  audited = λ r event ip actor of now h. h;
}

-- Whatever the admin does, ids and names stay distinct, names also by more than case, the number of the next id
-- stays above the ids, and an id that was given and that no user has is not given again.
pub change-IsSound :
    (n id : ℕ) (req : Request) (admin now : ℕ) (c : Change) (g : Gateway)
    → IsSound n g.repo
    → IsSound n (change req admin now c g).repo
      × ((not (is_spent id g.repo) || is_spent id (change req admin now c g).repo) ≡ true)
change-IsSound n id req admin now c g h = (
  change-keeps (IsSound n) (IsSound-IsKept n) req admin now c g h,
  elim (Bool-cases (is_spent id g.repo)) [
    | inr fresh ↦ rw fresh refl
    | inl gone ↦
        rw gone (change-keeps (λ r. is_spent id r ≡ true) (spent-IsKept id) req admin now c g gone)
  ],
)
