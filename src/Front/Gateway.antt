-- ===== src/Front/Gateway.antt =====
-- server/src/front/gateway.ts: what `Gateway` knows, and whom a request belongs to. `new URL` is the field
-- `parse_url`: the protocol and the host of an origin.
use wa_logger.Base.{
  ℕ, ◌+◌, Bool, false, Option, none, some, List, [], ◌∷◌, ◌++◌, if◌then◌else◌, ◌==◌, leb, length,
  drop, ◌&&◌, not, or_else, any,
}
use wa_logger.Base.Text.{
  Text, codes, text_beq, text_eq, trim, split, before, is_digit, all_chars, number,
}
use wa_logger.Front.Rows.{UserRow, SystemRepo, is_admin, get_user, get_listener}
use wa_logger.Front.Headers.{ClientInfo, Headers}

pub data CookieSecure : Type 0 where
  automatic : CookieSecure
  fixed : Bool → CookieSecure

-- The fields of the configuration that are used here.
pub record FrontConfig : Type 0 where
  pub public_origin : Option Text
  pub cookie_secure : CookieSecure
  pub trust_proxy : ℕ
  pub setup_token : Text
  pub max_users : ℕ
  pub extra_ports : List ℕ
  pub parse_url : Text → Text × Text

-- A request: `ip`, `proto` and `host` are those that the proxy chain reports.
pub record Request : Type 0 where
  pub method : Text
  pub url : Text
  pub cookie : Option Text
  pub origin : Option Text
  pub authorization : Option Text
  pub upgrade : Option Text
  pub headers : Headers
  pub info : ClientInfo
  pub local_port : Option ℕ

pub record Gateway : Type 0 where
  pub config : FrontConfig
  pub repo : SystemRepo
  pub default_port : ℕ
  pub open_ports : List ℕ

-- `tenantCookieName`
unfoldable pub tenant_cookie_name : Bool → Text
tenant_cookie_name secure = if secure then codes "__Host-wal_tenant" else codes "wal_tenant"

abbrev pub has_char : ℕ → Text → Bool
has_char c s = any (λ x. x == c) s

-- The loop of `getCookie`
unfoldable pub find_cookie : Text → List Text → Option Text
find_cookie name [] = none
find_cookie name (part ∷ parts) =
    let rest = find_cookie name parts in
    if has_char b'=' part && text_beq (trim (before b'=' part)) name
    then some (trim (drop (length (before b'=' part) + 1) part))
    else rest

-- `getCookie`
unfoldable pub get_cookie : Option Text → Text → Option Text
unfolding find_cookie
get_cookie header name = elim header [ none ↦ none | some h ↦ find_cookie name (split b';' h) ]

-- `localPort`
unfoldable pub local_port : Gateway → Request → ℕ
local_port g req = or_else req.local_port g.default_port

-- `userPort`
unfoldable pub user_port : Gateway → UserRow → ℕ
user_port g u = if is_admin u then g.default_port else or_else u.port g.default_port

-- `expectedOrigin`
unfoldable pub expected_origin : Gateway → ℕ → Option Text
expected_origin g port =
    if port == g.default_port
    then g.config.public_origin
    else elim (get_listener port g.repo) [ none ↦ none | some l ↦ l.public_origin ]

-- `usable`, which also gives the user
unfoldable pub usable : Gateway → Option UserRow → ℕ → Option UserRow
unfolding user_port
usable g user port = elim user [
  | none ↦ none
  | some u ↦ if not u.disabled && user_port g u == port then some u else none
]

-- `effective`; an empty origin counts as none.
unfoldable pub effective : Gateway → ClientInfo → ℕ → ClientInfo
unfolding expected_origin
effective g info port = elim (expected_origin g port) [
  | none ↦ info
  | some [] ↦ info
  | some (c ∷ o) ↦ record info {
    proto =
        if text_beq (g.config.parse_url (c ∷ o)).0 (codes "https:")
        then codes "https"
        else codes "http";
    host = (g.config.parse_url (c ∷ o)).1;
  }
]

-- `info`
unfoldable pub info : Gateway → Request → ClientInfo
unfolding effective local_port
info g req = effective g req.info (local_port g req)

abbrev pub secure_for : Gateway → ClientInfo → Bool
secure_for g i = elim g.config.cookie_secure [
  | automatic ↦ text_beq i.proto (codes "https")
  | fixed b ↦ b
]

-- `secure`
unfoldable pub secure : Gateway → Request → Bool
unfolding info
secure g req = secure_for g (info g req)

abbrev pub is_id_text : Text → Bool
is_id_text [] = false
is_id_text (c ∷ s) = leb (length s) 4 && all_chars is_digit (c ∷ s)

abbrev pub by_id : Gateway → Text → ℕ → Option UserRow
by_id g raw port = if is_id_text raw then usable g (get_user (number raw) g.repo) port else none

-- `identify`
unfoldable pub identify : Gateway → Option Text → ℕ → Bool → Option UserRow
unfolding get_cookie tenant_cookie_name usable
identify g cookie port is_secure = elim (get_cookie cookie (tenant_cookie_name is_secure)) [
  | none ↦ none
  | some raw ↦ by_id g raw port
]

abbrev pub own_origin : ClientInfo → Text
own_origin i = i.proto ++ (codes "://" ++ i.host)

-- `originAllowed`
unfoldable pub origin_allowed : Gateway → Option Text → ℕ → ClientInfo → Bool
unfolding expected_origin
origin_allowed g origin port i = elim origin [
  | none ↦ false
  | some [] ↦ false
  | some (c ∷ o) ↦
      not (text_beq (c ∷ o) (codes "null"))
      && text_beq (c ∷ o) (or_else (expected_origin g port) (own_origin i))
]
