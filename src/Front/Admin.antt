-- ===== src/Front/Admin.antt =====
-- server/src/front/listeners.ts and server/src/front/admin.ts: the ports that are open, and what the admin may change.
-- A handler stands behind the validation of its body; what workers, the pool and the network answer is an argument.
pub mod Changes
pub mod Ports
pub mod Distinct
pub mod Users
use wa_logger.Base.{
  ℕ, ◌+◌, Bool, true, false, Option, none, some, List, [], ◌∷◌, ◌++◌, String, if◌then◌else◌, ◌==◌,
  leb, ◌&&◌, ◌||◌, not, any, is_some, length, Result, ok, err, AppError,
}
use wa_logger.Base.Errors
use wa_logger.Base.Text.{Text}
use wa_logger.Front.Rows.{
  UserRow, UserRole, SystemRepo, is_admin, user_count, get_user, create_user, delete_user, set_port,
  set_disabled, users_on_port, get_listener, upsert_listener, delete_listener, audit,
}
use wa_logger.Front.Gateway.{Gateway, Request, local_port, identify, secure, info, origin_allowed}
use wa_logger.Front.Forward.{safe_method}

-- `isAllowed`
unfoldable pub is_allowed : ℕ → Gateway → Bool
is_allowed port g = any (λ p. p == port) g.config.extra_ports

-- `isOpen`
unfoldable pub is_open : ℕ → Gateway → Bool
is_open port g = any (λ p. p == port) g.open_ports

-- `open`: whether the port is open then; `listens` says that the operating system gave it.
unfoldable pub open_port : ℕ → Bool → Gateway → Bool × Gateway
open_port port listens g =
    if not (is_allowed port g)
    then (false, g)
    else if is_open port g
    then (true, g)
    else if listens
    then (true, record g { open_ports = g.open_ports ++ (port ∷ []) })
    else (false, g)

abbrev pub drop_port : ℕ → List ℕ → List ℕ
drop_port port [] = []
drop_port port (p ∷ ps) = let rest = drop_port port ps in if p == port then rest else p ∷ rest

-- `close`
unfoldable pub close_port : ℕ → Gateway → Gateway
close_port port g =
    if port == g.default_port then g else record g { open_ports = drop_port port g.open_ports }

-- `requireAdmin`; `answer` is the error with which the worker of the user answers, if it does.
unfoldable pub require_admin : Gateway → Request → Option AppError → Result UserRow
unfolding identify secure local_port origin_allowed safe_method info
require_admin g req answer = elim (identify g req.cookie (local_port g req) (secure g req)) [
  | none ↦ err Errors.unauthorized
  | some u ↦
      if not (is_admin u)
      then err Errors.forbidden
      else if not (safe_method req.method)
          && not (origin_allowed g req.origin (local_port g req) (info g req))
      then err Errors.forbidden
      else elim answer [ none ↦ ok u | some e ↦ err e ]
]

-- `nonAdmin(target(…))`
unfoldable pub target : ℕ → Gateway → Result UserRow
target id g = elim (get_user id g.repo) [
  | none ↦ err Errors.not_found
  | some u ↦ if is_admin u then err Errors.conflict else ok u
]

-- `validPort`
unfoldable pub valid_port : Gateway → Option ℕ → Result (Option ℕ)
valid_port g none = ok none
valid_port g (some p) =
    if p == g.default_port
    then ok none
    else if is_some (get_listener p g.repo)
    then ok (some p)
    else err Errors.validation

-- `audit`
unfoldable pub note : String → Request → ℕ → Option ℕ → ℕ → Gateway → Gateway
note event req actor t now g = record g {
  repo = audit event (some req.info.ip) (some actor) t now g.repo;
}

-- `POST /api/admin/users`: `policy` says that the password is refused, `provisioned` with what error the worker answers.
unfoldable pub create :
    Request → ℕ → Text → Option ℕ → Bool → Option AppError → ℕ → Gateway → Result ℕ × Gateway
create req admin name port policy provisioned now g =
    if leb g.config.max_users (user_count g.repo)
    then (err Errors.conflict, g)
    else elim (valid_port g port) [
      | err e ↦ (err e, g)
      | ok p ↦
          if policy
          then (err Errors.validation, g)
          else (let made = create_user none name UserRole.user p now g.repo in
              elim made.0 [
                | none ↦ (err Errors.conflict, g)
                | some id ↦ elim provisioned [
                  | none ↦ (
                    ok id,
                    note "user_created" req admin (some id) now (record g { repo = made.1 }),
                  )
                  | some e ↦ (err e, record g { repo = delete_user id made.1 })
                ]
              ])
    ]

-- The first part of the update: the port, and whether the sessions are to end.
abbrev pub differs : Option ℕ → Option ℕ → Bool
differs none none = false
differs none (some q) = true
differs (some p) none = true
differs (some p) (some q) = not (p == q)

unfoldable pub move :
    Request → ℕ → UserRow → Option (Option ℕ) → ℕ → Gateway → Result Bool × Gateway
move req admin u none now g = (ok false, g)
move req admin u (some port) now g = elim (valid_port g port) [
  | err e ↦ (err e, g)
  | ok p ↦
      if differs p u.port
      then (
        ok true,
        note "user_port_changed" req admin (some u.id) now
            (record g { repo = set_port u.id p g.repo }),
      )
      else (ok false, g)
]

unfoldable pub disable : Request → ℕ → UserRow → Option Bool → ℕ → Gateway → Bool × Gateway
disable req admin u none now g = (false, g)
disable req admin u (some b) now g =
    if (b && not u.disabled) || (not b && u.disabled)
    then (
      b,
      note (if b then "user_disabled" else "user_enabled") req admin (some u.id) now
          (record g { repo = set_disabled u.id b g.repo }),
    )
    else (false, g)

-- `PATCH /api/admin/users/:id`: whether the user's sessions are ended.
unfoldable pub patch :
    Request → ℕ → ℕ → Option (Option ℕ) → Option Bool → ℕ → Gateway → Result Bool × Gateway
patch req admin id port disabled now g = elim (target id g) [
  | err e ↦ (err e, g)
  | ok u ↦
      if not (is_some port) && not (is_some disabled)
      then (err Errors.validation, g)
      else (let moved = move req admin u port now g in
          elim moved.0 [
            | err e ↦ (err e, moved.1)
            | ok revoke ↦ (
              ok (revoke || (disable req admin u disabled now moved.1).0),
              (disable req admin u disabled now moved.1).1,
            )
          ])
]

-- `POST /api/admin/users/:id/delete`: `again` is the error of the password check, `removed` the pool's answer.
unfoldable pub remove :
    Request → ℕ → ℕ → Option AppError → Bool → ℕ → Gateway → Result Bool × Gateway
remove req admin id again removed now g = elim (target id g) [
  | err e ↦ (err e, g)
  | ok u ↦ elim again [
    | some e ↦ (err e, g)
    | none ↦
        if removed
        then (
          ok true,
          note "user_deleted" req admin none now (record g { repo = delete_user u.id g.repo }),
        )
        else (err Errors.unavailable, g)
  ]
]

-- `PUT /api/admin/ports/:port`: `in_use` says that the operating system has given the port away.
unfoldable pub put_port :
    Request → ℕ → ℕ → Option Text → Bool → Bool → ℕ → Gateway → Result Bool × Gateway
put_port req admin port origin listens in_use now g =
    if port == g.default_port
    then (err Errors.validation, g)
    else if not (is_allowed port g)
    then (err Errors.validation, g)
    else (let opened = open_port port listens g in
        if opened.0
        then (
          ok true,
          note "port_opened" req admin none now
              (record opened.1 { repo = upsert_listener port origin now opened.1.repo }),
        )
        else (err (if in_use then Errors.conflict else Errors.unavailable), opened.1))

abbrev pub is_nil : List UserRow → Bool
is_nil [] = true
is_nil (u ∷ us) = false

-- `DELETE /api/admin/ports/:port`
unfoldable pub delete_port : Request → ℕ → ℕ → ℕ → Gateway → Result Bool × Gateway
delete_port req admin port now g =
    if not (is_some (get_listener port g.repo))
    then (err Errors.not_found, g)
    else if not (is_nil (users_on_port port g.repo))
    then (err Errors.conflict, g)
    else (
      ok true,
      note "port_closed" req admin none now
          (close_port port (record g { repo = delete_listener port g.repo })),
    )

-- The routes that change something, with what the outside answers.
pub data Change : Type 0 where
  creates : Text → Option ℕ → Bool → Option AppError → Change
  patches : ℕ → Option (Option ℕ) → Option Bool → Change
  removes : ℕ → Option AppError → Bool → Change
  puts_port : ℕ → Option Text → Bool → Bool → Change
  deletes_port : ℕ → Change

unfoldable pub change : Request → ℕ → ℕ → Change → Gateway → Gateway
change req admin now (creates name port policy provisioned) g =
    (create req admin name port policy provisioned now g).1
change req admin now (patches id port disabled) g = (patch req admin id port disabled now g).1
change req admin now (removes id again removed) g = (remove req admin id again removed now g).1
change req admin now (puts_port port origin listens in_use) g =
    (put_port req admin port origin listens in_use now g).1
change req admin now (deletes_port port) g = (delete_port req admin port now g).1
