-- ===== src/Front/Forward.antt =====
-- server/src/front/gateway.ts: requests and upgrades that are forwarded to a worker, and those that are not.
-- `decodeURIComponent` and the pool's answer are the fields of `Outside`.
pub mod Checked
use wa_logger.Base.{
  ℕ, ◌+◌, ◌-◌, ◌≡◌, refl, Bool, true, false, Option, none, some, List, [], ◌∷◌, ◌++◌, if◌then◌else◌,
  ◌==◌, leb, length, drop, take, ◌&&◌, ◌||◌, not, any, or_else,
}
use wa_logger.Base.Text.{
  Text, codes, text_beq, text_eq, split, before, starts_with, lower, is_digit, all_chars, number,
}
use wa_logger.Base.JsMap
use wa_logger.Front.Rows.{UserRow, get_user}
use wa_logger.Front.Headers.{ClientInfo, WorkerHandle, Headers, upstream_headers}
use wa_logger.Front.Gateway.{
  Gateway, Request, local_port, usable, effective, info, secure, secure_for, identify,
  origin_allowed,
}

pub record Outside : Type 0 where
  pub decode : Text → Option Text
  pub ensure : ℕ → Option WorkerHandle

-- What becomes of a request. A refusal to identify also clears the cookie.
pub data Answer : Type 0 where
  bad_request unauthorized forbidden unavailable bad_gateway : Answer
  proxied : UserRow → Headers → Answer

abbrev printable : ℕ → Bool
printable c = leb 33 c && leb c 126

-- `/^\/api(\/[\x21-\x7e]*)?$/`
abbrev is_api_path : Text → Bool
is_api_path p =
    text_beq p (codes "/api") || (starts_with (codes "/api/") p && all_chars printable (drop 5 p))

-- `/^\/api(\/|$)/`
abbrev is_under_api : Text → Bool
is_under_api p = text_beq p (codes "/api") || starts_with (codes "/api/") p

-- `/(^|\/)\.{1,2}(\/|$)/`: a segment that is one or two dots.
abbrev has_dots : Text → Bool
has_dots p = any (λ s. text_beq s (codes ".") || text_beq s (codes "..")) (split b'/' p)

abbrev doubled_slash : Text → Bool
doubled_slash [] = false
doubled_slash (c ∷ s) = starts_with (codes "//") (c ∷ s) || doubled_slash s

abbrev is_unclean : ℕ → Bool
is_unclean c = c == 92 || (leb c 31 || c == 127)

-- The tests of `cleanApiPath` on the decoded path.
unfoldable pub clean_decoded : Text → Text → Bool
clean_decoded path decoded =
    not (not (text_beq decoded path) && any (λ c. c == b'%') decoded)
    && (not (has_dots decoded || (doubled_slash decoded || any is_unclean decoded))
        && is_under_api decoded)

-- `cleanApiPath`
unfoldable pub clean_api_path : Outside → Text → Bool
unfolding clean_decoded
clean_api_path o url =
    let path = before b'?' url in
    is_api_path path
    && elim (o.decode path) [ none ↦ false | some decoded ↦ clean_decoded path decoded ]

-- The id in `/^Bearer walt_(\d{1,5})_[A-Za-z0-9_-]{43}$/`
abbrev base64url : ℕ → Bool
base64url c =
    (leb 65 c && leb c 90) || ((leb 97 c && leb c 122) || (is_digit c || (c == b'_' || c == b'-')))

unfoldable pub bearer_tenant : Text → Option Text
bearer_tenant auth =
    let token = drop 12 auth in
    let id = before b'_' token in
    let key = drop (length id + 1) token in
    if starts_with (codes "Bearer walt_") auth
      && ((leb 1 (length id) && (leb (length id) 5 && all_chars is_digit id))
          && (length key == 43 && all_chars base64url key))
    then some id
    else none

-- `apiTokenUser`
unfoldable pub api_token_user : Gateway → Request → ℕ → Option UserRow
unfolding bearer_tenant usable
api_token_user g req port =
    if starts_with (codes "/api/v1/") (before b'?' req.url)
    then elim (bearer_tenant (or_else req.authorization [])) [
      | none ↦ none
      | some id ↦ usable g (get_user (number id) g.repo) port
    ]
    else none

-- `SAFE_METHODS`
unfoldable pub safe_method : Text → Bool
safe_method m =
    text_beq m (codes "GET") || (text_beq m (codes "HEAD") || text_beq m (codes "OPTIONS"))

abbrev pub to_worker : Outside → UserRow → (WorkerHandle → Headers) → Answer → Answer
to_worker o u headers failed = elim (o.ensure u.id) [
  | none ↦ failed
  | some h ↦ proxied u (headers h)
]

-- `forwardApi` behind the test for a token
unfoldable pub forward_signed_in : Outside → Gateway → Request → Answer
unfolding safe_method identify origin_allowed info local_port secure
forward_signed_in o g req =
    let port = local_port g req in
    elim (identify g req.cookie port (secure g req)) [
      | none ↦ unauthorized
      | some u ↦
          if not (safe_method req.method) && not (origin_allowed g req.origin port (info g req))
          then forbidden
          else to_worker o u (λ h. upstream_headers req.headers (info g req) h false false)
              unavailable
    ]

-- `forwardApi`
unfoldable pub forward_api : Outside → Gateway → Request → Answer
unfolding clean_api_path api_token_user forward_signed_in info local_port
forward_api o g req =
    if clean_api_path o req.url
    then elim (api_token_user g req (local_port g req)) [
      | some u ↦
          to_worker o u
            (λ h.
              JsMap.delete (codes "cookie")
                (upstream_headers req.headers (info g req) h false false))
            unavailable
      | none ↦ forward_signed_in o g req
    ]
    else bad_request

abbrev is_websocket : Option Text → Bool
is_websocket none = false
is_websocket (some u) = text_beq (lower u) (codes "websocket")

-- `onUpgrade`
unfoldable pub on_upgrade : Outside → Gateway → Request → Answer
unfolding clean_api_path identify origin_allowed effective local_port
on_upgrade o g req =
    let port = local_port g req in
    let i = effective g req.info port in
    if clean_api_path o req.url && (starts_with (codes "/api/") req.url && is_websocket req.upgrade)
    then elim (identify g req.cookie port (secure_for g i)) [
      | none ↦ unauthorized
      | some u ↦
          if origin_allowed g req.origin port i
          then to_worker o u (λ h. upstream_headers req.headers i h true false) bad_gateway
          else forbidden
    ]
    else bad_request
