-- ===== src/Front/Admin/Changes.antt =====
-- What the admin's changes do to the gateway's tables: every one is made of a few steps, so a property of the tables
-- that these keep is kept by any change.
use wa_logger.Base.{
  String, ℕ, ◌≡◌, refl, sym, ap, ◌∙◌, Bool, true, Option, none, some, List, [], ◌∷◌, if◌then◌else◌,
  ◌==◌, leb, ◌&&◌, ◌||◌, not, is_some, ok, AppError, arith, inl, inr, Bool-cases, Option-cases,
}
use mathlib.Core.Path.{subst}
use wa_logger.Base.Failure.{Result-cases}
use wa_logger.Base.Text.{Text}
use wa_logger.Front.Rows.{
  UserRow, UserRole, ListenerRow, SystemRepo, user_count, create_user, delete_user, set_port,
  set_disabled, users_on_port, find_listener, get_listener, upsert_listener, delete_listener, audit,
}
use wa_logger.Front.Gateway.{Gateway, Request}
use wa_logger.Front.Admin.{
  open_port, is_allowed, is_nil, differs, close_port, target, valid_port, note, create, move,
  disable, patch, remove, put_port, delete_port, Change, creates, patches, removes, puts_port,
  deletes_port, change,
}

-- The port, when there is one, has a row among the listeners.
abbrev pub IsListed : List ListenerRow → Option ℕ → Type 0
IsListed ls port = (p : ℕ) → port ≡ some p → is_some (find_listener p ls) ≡ true

valid_port-IsListed :
    (g : Gateway) (port p : Option ℕ) → valid_port g port ≡ ok p → IsListed g.repo.listeners p
unfolding valid_port get_listener
valid_port-IsListed g none p h q e = absurd (ground (arith, h, e))
valid_port-IsListed g (some k) p h q e = elim (Bool-cases (k == g.default_port)) [
  | inl default ↦ absurd (ground (arith, h, e, default))
  | inr extra ↦ elim (Bool-cases (is_some (find_listener k g.repo.listeners))) [
    | inl there ↦
        let kq : k ≡ q = ground (arith, h, e, extra, there) in
        ap (λ x. is_some (find_listener x g.repo.listeners)) (sym kq) ∙ there
    | inr missing ↦ absurd (ground (arith, h, extra, missing))
  ]
]

open_port_same :
    (port : ℕ) (listens : Bool) (g : Gateway) → (open_port port listens g).1.repo ≡ g.repo
unfolding open_port
open_port_same port listens g = ground arith

close_port_same : (port : ℕ) (g : Gateway) → (close_port port g).repo ≡ g.repo
unfolding close_port
close_port_same port g = ground arith

is_nil_lem : (us : List UserRow) → is_nil us ≡ true → us ≡ []
is_nil_lem [] h = refl
is_nil_lem (u ∷ us) h = absurd (ground (arith, h))

-- What keeps a property: the steps that the changes are made of, each under what is checked before it.
pub record IsKept (P : SystemRepo → Type 0) : Type 0 where
  pub created :
      (r : SystemRepo) (name : Text) (port : Option ℕ) (now : ℕ)
      → P r
      → IsListed r.listeners port
      → P (create_user none name UserRole.user port now r).1
  pub deleted : (r : SystemRepo) (id : ℕ) → P r → P (delete_user id r)
  pub moved :
      (r : SystemRepo) (id : ℕ) (port : Option ℕ)
      → P r
      → IsListed r.listeners port
      → P (set_port id port r)
  pub disabled : (r : SystemRepo) (id : ℕ) (b : Bool) → P r → P (set_disabled id b r)
  pub listed :
      (r : SystemRepo) (port : ℕ) (origin : Option Text) (now : ℕ)
      → P r
      → P (upsert_listener port origin now r)
  pub unlisted :
      (r : SystemRepo) (port : ℕ) → P r → users_on_port port r ≡ [] → P (delete_listener port r)
  pub audited :
      (r : SystemRepo) (event : String) (ip : Option Text) (actor of : Option ℕ) (now : ℕ)
      → P r
      → P (audit event ip actor of now r)

module _ (P : SystemRepo → Type 0) (kept : IsKept P) where
  create-keeps :
      (req : Request) (admin : ℕ) (name : Text) (port : Option ℕ) (policy : Bool)
      (provisioned : Option AppError) (now : ℕ) (g : Gateway)
      → P g.repo
      → P (create req admin name port policy provisioned now g).1.repo
  unfolding create note
  create-keeps req admin name port policy provisioned now g h =
      elim (Bool-cases (leb g.config.max_users (user_count g.repo))) [
        | inl full ↦ rw (create, full) h
        | inr room ↦ elim (Result-cases (valid_port g port)) [
          | inr (e, bad) ↦ rw (create, room, bad) h
          | inl (p, good) ↦ elim (Bool-cases policy) [
            | inl weak ↦ rw (create, room, good, weak) h
            | inr strong ↦
                let made = create_user none name UserRole.user p now g.repo in
                let held = kept.created g.repo name p now h (valid_port-IsListed g port p good) in
                elim (Option-cases made.0) [
                  | inl taken ↦ rw (create, room, good, strong, taken) h
                  | inr (id, new) ↦ elim (Option-cases provisioned) [
                    | inl fine ↦
                        rw (create, room, good, strong, new, fine)
                          (kept.audited made.1 "user_created" (some req.info.ip) (some admin)
                            (some id) now held)
                    | inr (e, failed) ↦
                        rw (create, room, good, strong, new, failed) (kept.deleted made.1 id held)
                  ]
                ]
          ]
        ]
      ]

  move-keeps :
      (req : Request) (admin : ℕ) (u : UserRow) (port : Option (Option ℕ)) (now : ℕ) (g : Gateway)
      → P g.repo
      → P (move req admin u port now g).1.repo
  unfolding move note
  move-keeps req admin u none now g h = h
  move-keeps req admin u (some port) now g h = elim (Result-cases (valid_port g port)) [
    | inr (e, bad) ↦ rw (move, bad) h
    | inl (p, good) ↦ elim (Bool-cases (differs p u.port)) [
      | inl new ↦
          rw (move, good, new)
            (kept.audited (set_port u.id p g.repo) "user_port_changed" (some req.info.ip)
              (some admin) (some u.id) now
              (kept.moved g.repo u.id p h (valid_port-IsListed g port p good)))
      | inr same ↦ rw (move, good, same) h
    ]
  ]

  disable-keeps :
      (req : Request) (admin : ℕ) (u : UserRow) (b : Option Bool) (now : ℕ) (g : Gateway)
      → P g.repo
      → P (disable req admin u b now g).1.repo
  unfolding disable note
  disable-keeps req admin u none now g h = h
  disable-keeps req admin u (some b) now g h =
      elim (Bool-cases ((b && not u.disabled) || (not b && u.disabled))) [
        | inl new ↦
            rw (disable, new)
              (kept.audited (set_disabled u.id b g.repo)
                (if b then "user_disabled" else "user_enabled") (some req.info.ip) (some admin)
                (some u.id) now (kept.disabled g.repo u.id b h))
        | inr same ↦ rw (disable, same) h
      ]

  patch-keeps :
      (req : Request) (admin id : ℕ) (port : Option (Option ℕ)) (b : Option Bool) (now : ℕ)
      (g : Gateway)
      → P g.repo
      → P (patch req admin id port b now g).1.repo
  unfolding patch
  patch-keeps req admin id port b now g h = elim (Result-cases (target id g)) [
    | inr (e, bad) ↦ rw (patch, bad) h
    | inl (u, good) ↦ elim (Bool-cases (not (is_some port) && not (is_some b))) [
      | inl nothing ↦ rw (patch, good, nothing) h
      | inr some_change ↦
          let moved = move req admin u port now g in
          let held = move-keeps req admin u port now g h in
          elim (Result-cases moved.0) [
            | inr (e, refused) ↦ rw (patch, good, some_change, refused) held
            | inl (revoke, done) ↦
                rw (patch, good, some_change, done) (disable-keeps req admin u b now moved.1 held)
          ]
    ]
  ]

  remove-keeps :
      (req : Request) (admin id : ℕ) (again : Option AppError) (removed : Bool) (now : ℕ)
      (g : Gateway)
      → P g.repo
      → P (remove req admin id again removed now g).1.repo
  unfolding remove note
  remove-keeps req admin id again removed now g h = elim (Result-cases (target id g)) [
    | inr (e, bad) ↦ rw (remove, bad) h
    | inl (u, good) ↦ elim (Option-cases again) [
      | inr (e, wrong) ↦ rw (remove, good, wrong) h
      | inl right ↦ elim (Bool-cases removed) [
        | inl gone ↦
            rw (remove, good, right, gone)
              (kept.audited (delete_user u.id g.repo) "user_deleted" (some req.info.ip) (some admin)
                none now (kept.deleted g.repo u.id h))
        | inr left ↦ rw (remove, good, right, left) h
      ]
    ]
  ]

  put_port-keeps :
      (req : Request) (admin port : ℕ) (origin : Option Text) (listens in_use : Bool) (now : ℕ)
      (g : Gateway)
      → P g.repo
      → P (put_port req admin port origin listens in_use now g).1.repo
  unfolding put_port note
  put_port-keeps req admin port origin listens in_use now g h =
      let opened = open_port port listens g in
      let held = subst P (sym (open_port_same port listens g)) h in
      elim (Bool-cases (port == g.default_port)) [
        | inl default ↦ rw (put_port, default) h
        | inr extra ↦ elim (Bool-cases (not (is_allowed port g))) [
          | inl shut ↦ rw (put_port, extra, shut) h
          | inr allowed ↦ elim (Bool-cases opened.0) [
            | inr failed ↦ rw (put_port, extra, allowed, failed) held
            | inl done ↦
                rw (put_port, extra, allowed, done)
                  (kept.audited (upsert_listener port origin now opened.1.repo) "port_opened"
                    (some req.info.ip) (some admin) none now
                    (kept.listed opened.1.repo port origin now held))
          ]
        ]
      ]

  delete_port-keeps :
      (req : Request) (admin port now : ℕ) (g : Gateway)
      → P g.repo
      → P (delete_port req admin port now g).1.repo
  unfolding delete_port note
  delete_port-keeps req admin port now g h =
      elim (Bool-cases (not (is_some (get_listener port g.repo)))) [
        | inl missing ↦ rw (delete_port, missing) h
        | inr there ↦ elim (Bool-cases (is_nil (users_on_port port g.repo))) [
          | inr used ↦ rw (delete_port, there, used) h
          | inl free ↦
              let left = record g { repo = delete_listener port g.repo } in
              let held : P left.repo =
                kept.unlisted g.repo port h (is_nil_lem (users_on_port port g.repo) free) in
              rw (delete_port, there, free)
                (kept.audited (close_port port left).repo "port_closed" (some req.info.ip)
                  (some admin) none now (subst P (sym (close_port_same port left)) held))
        ]
      ]

  pub change-keeps :
      (req : Request) (admin now : ℕ) (c : Change) (g : Gateway)
      → P g.repo
      → P (change req admin now c g).repo
  unfolding change
  change-keeps req admin now (creates name port policy provisioned) g h =
      create-keeps req admin name port policy provisioned now g h
  change-keeps req admin now (patches id port b) g h = patch-keeps req admin id port b now g h
  change-keeps req admin now (removes id again removed) g h =
      remove-keeps req admin id again removed now g h
  change-keeps req admin now (puts_port port origin listens in_use) g h =
      put_port-keeps req admin port origin listens in_use now g h
  change-keeps req admin now (deletes_port port) g h = delete_port-keeps req admin port now g h
