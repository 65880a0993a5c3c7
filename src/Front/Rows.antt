-- ===== src/Front/Rows.antt =====
-- server/src/front/db.ts: the gateway's own tables, in the order of their keys, with the constraints of the
-- schema: ids are never given again, names differ by more than the case of ASCII letters.
use wa_logger.Base.{
  ℕ, ◌+◌, String, Bool, true, false, Option, none, some, List, [], ◌∷◌, ◌++◌, if◌then◌else◌, ◌==◌,
  ltb, ◌||◌, any, length, max,
}
use wa_logger.Base.Text.{Text, text_eq, trim, lower}
use wa_logger.Base.Eq.{same}

pub data UserRole : Type 0 where
  admin user : UserRole

pub record UserRow : Type 0 where
  pub id : ℕ
  pub username : Text
  pub role : UserRole
  pub disabled : Bool
  pub port : Option ℕ
  pub created_at : ℕ
  pub last_login_at : Option ℕ

pub record ListenerRow : Type 0 where
  pub port : ℕ
  pub public_origin : Option Text
  pub created_at : ℕ

pub record FrontAuditRow : Type 0 where
  pub ts : ℕ
  pub event : String
  pub actor : Option ℕ
  pub target : Option ℕ
  pub ip : Option Text

-- `next_id` is above every id that was ever given.
pub record SystemRepo : Type 0 where
  pub users : List UserRow
  pub next_id : ℕ
  pub listeners : List ListenerRow
  pub audits : List FrontAuditRow

abbrev pub is_admin : UserRow → Bool
is_admin u = elim u.role [ admin ↦ true | user ↦ false ]

-- Equal for the index on `username`.
abbrev pub same_name : Text → Text → Bool
same_name a b = same (lower a) (lower b)

-- `userCount`
unfoldable pub user_count : SystemRepo → ℕ
user_count r = length r.users

-- `hasAdmin`
unfoldable pub has_admin : SystemRepo → Bool
has_admin r = any is_admin r.users

abbrev pub find_user : (UserRow → Bool) → List UserRow → Option UserRow
find_user p [] = none
find_user p (u ∷ us) = let rest = find_user p us in if p u then some u else rest

-- `getUser`
unfoldable pub get_user : ℕ → SystemRepo → Option UserRow
get_user id r = find_user (λ u. u.id == id) r.users

-- `getUserByName`
unfoldable pub get_user_by_name : Text → SystemRepo → Option UserRow
get_user_by_name name r = find_user (λ u. same_name u.username (trim name)) r.users

abbrev pub insert_user : UserRow → List UserRow → List UserRow
insert_user u [] = u ∷ []
insert_user u (v ∷ vs) = if ltb u.id v.id then u ∷ v ∷ vs else v ∷ insert_user u vs

abbrev pub given_id : Option ℕ → ℕ → ℕ
given_id none next = next
given_id (some id) next = id

-- `createUser`, with the id when one is asked for
unfoldable pub create_user :
    Option ℕ → Text → UserRole → Option ℕ → ℕ → SystemRepo → Option ℕ × SystemRepo
create_user wish name role port now r =
    let id = given_id wish r.next_id in
    if any (λ u. u.id == id || same_name u.username name) r.users then (none, r) else (
      some id,
      record r {
        users =
            insert_user
              (record {
                id = id;
                username = name;
                role = role;
                disabled = false;
                port = port;
                created_at = now;
                last_login_at = none;
              })
              r.users;
        next_id = max r.next_id (id + 1);
      },
    )

abbrev pub without : ℕ → List UserRow → List UserRow
without id [] = []
without id (u ∷ us) = let rest = without id us in if u.id == id then rest else u ∷ rest

-- `deleteUser`
unfoldable pub delete_user : ℕ → SystemRepo → SystemRepo
delete_user id r = record r { users = without id r.users }

abbrev pub update_user : ℕ → (UserRow → UserRow) → List UserRow → List UserRow
update_user id f [] = []
update_user id f (u ∷ us) = (if u.id == id then f u else u) ∷ update_user id f us

-- `setPort`
unfoldable pub set_port : ℕ → Option ℕ → SystemRepo → SystemRepo
set_port id port r = record r { users = update_user id (λ u. record u { port = port }) r.users }

-- `setDisabled`
unfoldable pub set_disabled : ℕ → Bool → SystemRepo → SystemRepo
set_disabled id b r = record r { users = update_user id (λ u. record u { disabled = b }) r.users }

-- `touchLogin`
unfoldable pub touch_login : ℕ → ℕ → SystemRepo → SystemRepo
touch_login id now r = record r {
  users = update_user id (λ u. record u { last_login_at = some now }) r.users;
}

abbrev pub on_port : ℕ → UserRow → Bool
on_port port u = elim u.port [ none ↦ false | some p ↦ p == port ]

abbrev pub users_where : (UserRow → Bool) → List UserRow → List UserRow
users_where p [] = []
users_where p (u ∷ us) = let rest = users_where p us in if p u then u ∷ rest else rest

-- `usersOnPort`
unfoldable pub users_on_port : ℕ → SystemRepo → List UserRow
users_on_port port r = users_where (on_port port) r.users

abbrev pub find_listener : ℕ → List ListenerRow → Option ListenerRow
find_listener port [] = none
find_listener port (l ∷ ls) =
    let rest = find_listener port ls in if l.port == port then some l else rest

-- `getListener`
unfoldable pub get_listener : ℕ → SystemRepo → Option ListenerRow
get_listener port r = find_listener port r.listeners

abbrev pub put_listener : ListenerRow → List ListenerRow → List ListenerRow
put_listener l [] = l ∷ []
put_listener l (k ∷ ks) =
    if l.port == k.port
    then record k { public_origin = l.public_origin } ∷ ks
    else if ltb l.port k.port
    then l ∷ k ∷ ks
    else k ∷ put_listener l ks

-- `upsertListener`
unfoldable pub upsert_listener : ℕ → Option Text → ℕ → SystemRepo → SystemRepo
upsert_listener port origin now r = record r {
  listeners =
      put_listener (record { port = port; public_origin = origin; created_at = now }) r.listeners;
}

abbrev pub without_listener : ℕ → List ListenerRow → List ListenerRow
without_listener port [] = []
without_listener port (l ∷ ls) =
    let rest = without_listener port ls in if l.port == port then rest else l ∷ rest

-- `deleteListener`
unfoldable pub delete_listener : ℕ → SystemRepo → SystemRepo
delete_listener port r = record r { listeners = without_listener port r.listeners }

-- `audit`
unfoldable pub audit : String → Option Text → Option ℕ → Option ℕ → ℕ → SystemRepo → SystemRepo
audit event ip actor target ts r = record r {
  audits =
      r.audits ++ (record { ts = ts; event = event; actor = actor; target = target; ip = ip } ∷ []);
}
