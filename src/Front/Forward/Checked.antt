-- ===== src/Front/Forward/Checked.antt =====
-- Whose requests reach which worker, and what the worker is told of them.
use wa_logger.Base.{
  ℕ, ◌≡◌, sym, ap, ◌∙◌, ◌⊎◌, inl, inr, Bool, true, false, Option, none, some, [], ==_iff, ◌&&◌, not,
  or_else, arith, and_left, Bool-cases, Option-cases,
}
use wa_logger.Base.Text.{Text, codes, text_eq, starts_with, before, number}
use wa_logger.Base.JsMap
use wa_logger.Front.Rows.{UserRow, get_user}
use wa_logger.Front.Headers.{
  ClientInfo, WorkerHandle, Headers, upstream_headers, get-upstream_headers,
}
use wa_logger.Front.Gateway.{
  Gateway, Request, local_port, user_port, usable, effective, info, secure, secure_for, identify,
  get_cookie, tenant_cookie_name, is_id_text, origin_allowed,
}
use wa_logger.Front.Forward.{
  Outside, Answer, unavailable, bad_gateway, proxied, clean_api_path, api_token_user, safe_method,
  to_worker, forward_signed_in, forward_api, on_upgrade, bearer_tenant, is_websocket,
}

-- The user is one of the gateway's, is not disabled, and signs in on this port.
pub record IsUsable (g : Gateway) (port : ℕ) (u : UserRow) : Type 0 where
  pub known : (n : ℕ) × (get_user n g.repo ≡ some u)
  pub enabled : u.disabled ≡ false
  pub at_port : user_port g u ≡ port

usable-IsUsable :
    (g : Gateway) (n port : ℕ) (u : UserRow)
    → usable g (get_user n g.repo) port ≡ some u
    → IsUsable g port u
unfolding usable
usable-IsUsable g n port u h = elim (Option-cases (get_user n g.repo)) [
  | inl e ↦ absurd (ground (arith, h, e))
  | inr (v, e) ↦
      let vu : v ≡ u = ground (arith, h, e) in
      record {
        known = (n, e ∙ ap some vu);
        enabled = ground (arith, h, e);
        at_port = ground (arith, h, e, ==_iff (user_port g v) port);
      }
]

identify-IsUsable :
    (g : Gateway) (cookie : Option Text) (port : ℕ) (is_secure : Bool) (u : UserRow)
    → identify g cookie port is_secure ≡ some u
    → IsUsable g port u
unfolding identify
identify-IsUsable g cookie port is_secure u h =
    elim (Option-cases (get_cookie cookie (tenant_cookie_name is_secure))) [
      | inl e ↦ absurd (ground (arith, h, e))
      | inr (raw, e) ↦ elim (Bool-cases (is_id_text raw)) [
        | inl digits ↦ usable-IsUsable g (number raw) port u (ground (arith, h, e, digits))
        | inr other ↦ absurd (ground (arith, h, e, other))
      ]
    ]

api_token_user-IsUsable :
    (g : Gateway) (req : Request) (port : ℕ) (u : UserRow)
    → api_token_user g req port ≡ some u
    → IsUsable g port u
unfolding api_token_user
api_token_user-IsUsable g req port u h =
    elim (Bool-cases (starts_with (codes "/api/v1/") (before b'?' req.url))) [
      | inr other ↦ absurd (ground (arith, h, other))
      | inl v1 ↦ elim (Option-cases (bearer_tenant (or_else req.authorization []))) [
        | inl e ↦ absurd (ground (arith, h, v1, e))
        | inr (id, e) ↦ usable-IsUsable g (number id) port u (ground (arith, h, v1, e))
      ]
    ]

-- The worker is told the gateway's secret, and never that the call is the gateway's own.
pub record IsMarked (o : Outside) (u : UserRow) (h : Headers) : Type 0 where
  pub handle : WorkerHandle
  pub running : o.ensure u.id ≡ some handle
  pub token : JsMap.get (codes "x-wal-internal") h ≡ some handle.internal_token
  pub scope : JsMap.get (codes "x-wal-scope") h ≡ none

upstream-token :
    (src : Headers) (i : ClientInfo) (h : WorkerHandle) (keep : Bool)
    → JsMap.IsUnique src
    → JsMap.get (codes "x-wal-internal") (upstream_headers src i h keep false)
      ≡ some h.internal_token
upstream-token src i h keep u = get-upstream_headers src i h keep false (codes "x-wal-internal") u

upstream-scope :
    (src : Headers) (i : ClientInfo) (h : WorkerHandle) (keep : Bool)
    → JsMap.IsUnique src
    → JsMap.get (codes "x-wal-scope") (upstream_headers src i h keep false) ≡ none
upstream-scope src i h keep u = get-upstream_headers src i h keep false (codes "x-wal-scope") u

to_worker-proxied :
    (o : Outside) (v u : UserRow) (headers : WorkerHandle → Headers) (failed : Answer) (h : Headers)
    → ((w : UserRow) (k : Headers) → failed ≡ proxied w k → ⊥)
    → to_worker o v headers failed ≡ proxied u h
    → (v ≡ u) × (handle : WorkerHandle) × (o.ensure u.id ≡ some handle) × (headers handle ≡ h)
to_worker-proxied o v u headers failed h f e = elim (Option-cases (o.ensure v.id)) [
  | inl n ↦ absurd (f u h (sym (rw (to_worker, n)) ∙ e))
  | inr (handle, n) ↦
      let both : proxied v (headers handle) ≡ proxied u h = sym (rw (to_worker, n)) ∙ e in
      let vu : v ≡ u = ground (arith, both) in
      (vu, handle, ap (λ w. o.ensure w.id) (sym vu) ∙ n, ground (arith, both))
]

-- How a request may ask for a worker: by an API token, or signed in and, for a method that changes something, from
-- the expected origin.
abbrev pub IsAsked : Gateway → Request → UserRow → Type 0
IsAsked g req u =
    (api_token_user g req (local_port g req) ≡ some u)
    ⊎ ((identify g req.cookie (local_port g req) (secure g req) ≡ some u)
        × ((safe_method req.method ≡ true)
            ⊎ (origin_allowed g req.origin (local_port g req) (info g req) ≡ true)))

forward_signed_in-proxied :
    (o : Outside) (g : Gateway) (req : Request) (u : UserRow) (h : Headers)
    → JsMap.IsUnique req.headers
    → forward_signed_in o g req ≡ proxied u h
    → IsUsable g (local_port g req) u × IsAsked g req u × IsMarked o u h
unfolding forward_signed_in
forward_signed_in-proxied o g req u h q e =
    let port = local_port g req in
    elim (Option-cases (identify g req.cookie port (secure g req))) [
      | inl n ↦ absurd (ground (arith, e, n))
      | inr (v, n) ↦
          elim (Bool-cases
            (not (safe_method req.method) && not (origin_allowed g req.origin port (info g req)))) [
              | inl cross ↦ absurd (ground (arith, e, n, cross))
              | inr fine ↦
                  let (vu, handle, r, hs) =
                    to_worker-proxied o v u
                      (λ w. upstream_headers req.headers (info g req) w false false) unavailable h
                      (λ w k c. ground (arith, c)) (sym (rw (forward_signed_in, n, fine)) ∙ e) in
                  let who : identify g req.cookie port (secure g req) ≡ some u = n ∙ ap some vu in
                  (
                    identify-IsUsable g req.cookie port (secure g req) u who,
                    inr (who, ground (arith, fine)),
                    record {
                      handle = handle;
                      running = r;
                      token =
                          ap (JsMap.get (codes "x-wal-internal")) (sym hs)
                          ∙ upstream-token req.headers (info g req) handle false q;
                      scope =
                          ap (JsMap.get (codes "x-wal-scope")) (sym hs)
                          ∙ upstream-scope req.headers (info g req) handle false q;
                    },
                  )
            ]
    ]

forward_token-proxied :
    (o : Outside) (g : Gateway) (req : Request) (v u : UserRow) (h : Headers)
    → JsMap.IsUnique req.headers
    → api_token_user g req (local_port g req) ≡ some v
    → to_worker o v
        (λ w.
          JsMap.delete (codes "cookie") (upstream_headers req.headers (info g req) w false false))
        unavailable
      ≡ proxied u h
    → IsUsable g (local_port g req) u × IsAsked g req u × IsMarked o u h
forward_token-proxied o g req v u h q n e =
    let headers = λ (w : WorkerHandle).
      JsMap.delete (codes "cookie") (upstream_headers req.headers (info g req) w false false) in
    let (vu, handle, r, hs) =
      to_worker-proxied o v u headers unavailable h (λ w k c. ground (arith, c)) e in
    let who : api_token_user g req (local_port g req) ≡ some u = n ∙ ap some vu in
    let up = upstream_headers req.headers (info g req) handle false false in
    (
      api_token_user-IsUsable g req (local_port g req) u who,
      inl who,
      record {
        handle = handle;
        running = r;
        token =
            ap (JsMap.get (codes "x-wal-internal")) (sym hs)
            ∙ JsMap.get-delete (codes "cookie") (codes "x-wal-internal") up
            ∙ upstream-token req.headers (info g req) handle false q;
        scope =
            ap (JsMap.get (codes "x-wal-scope")) (sym hs)
            ∙ JsMap.get-delete (codes "cookie") (codes "x-wal-scope") up
            ∙ upstream-scope req.headers (info g req) handle false q;
      },
    )

-- A request reaches a worker only on a clean path, only the worker of a user who is known, not disabled and on their own
-- port, only with a token or signed in (and from the expected origin where it changes something); and the
-- worker is told the gateway's secret and never that the call is internal.
pub forward_api-proxied :
    (o : Outside) (g : Gateway) (req : Request) (u : UserRow) (h : Headers)
    → JsMap.IsUnique req.headers
    → forward_api o g req ≡ proxied u h
    → (clean_api_path o req.url ≡ true)
      × (IsUsable g (local_port g req) u × IsAsked g req u × IsMarked o u h)
unfolding forward_api
forward_api-proxied o g req u h q e = elim (Bool-cases (clean_api_path o req.url)) [
  | inr bad ↦ absurd (ground (arith, e, bad))
  | inl clean ↦ elim (Option-cases (api_token_user g req (local_port g req))) [
    | inl n ↦
        (clean, forward_signed_in-proxied o g req u h q (sym (rw (forward_api, clean, n)) ∙ e))
    | inr (v, n) ↦
        (clean, forward_token-proxied o g req v u h q n (sym (rw (forward_api, clean, n)) ∙ e))
  ]
]

-- An upgrade reaches a worker only on a clean path and from the expected origin, only the worker of the user that its
-- cookie identifies, who is known, not disabled and on their own port; and the worker is told the gateway's secret
-- and never that the call is internal.
pub on_upgrade-proxied :
    (o : Outside) (g : Gateway) (req : Request) (u : UserRow) (h : Headers)
    → JsMap.IsUnique req.headers
    → on_upgrade o g req ≡ proxied u h
    → (clean_api_path o req.url ≡ true)
      × ((identify g req.cookie
              (local_port g req)
              (secure_for g (effective g req.info (local_port g req)))
            ≡ some u)
          × IsUsable g (local_port g req) u
          × (origin_allowed g req.origin
                (local_port g req)
                (effective g req.info (local_port g req))
              ≡ true)
          × IsMarked o u h)
unfolding on_upgrade
on_upgrade-proxied o g req u h q e =
    let port = local_port g req in
    let i = effective g req.info port in
    elim (Bool-cases (
      clean_api_path o req.url
      && (starts_with (codes "/api/") req.url && is_websocket req.upgrade))) [
        | inr bad ↦ absurd (ground (arith, e, bad))
        | inl good ↦ elim (Option-cases (identify g req.cookie port (secure_for g i))) [
          | inl n ↦ absurd (ground (arith, e, good, n))
          | inr (v, n) ↦ elim (Bool-cases (origin_allowed g req.origin port i)) [
            | inr cross ↦ absurd (ground (arith, e, good, n, cross))
            | inl fine ↦
                let (vu, handle, r, hs) =
                  to_worker-proxied o v u (λ w. upstream_headers req.headers i w true false)
                    bad_gateway h (λ w k c. ground (arith, c))
                    (sym (rw (on_upgrade, good, n, fine)) ∙ e) in
                (
                  and_left (clean_api_path o req.url)
                      (starts_with (codes "/api/") req.url && is_websocket req.upgrade) good,
                  (
                    n ∙ ap some vu,
                    identify-IsUsable g req.cookie port (secure_for g i) u (n ∙ ap some vu),
                    fine,
                    record {
                      handle = handle;
                      running = r;
                      token =
                          ap (JsMap.get (codes "x-wal-internal")) (sym hs)
                          ∙ upstream-token req.headers i handle true q;
                      scope =
                          ap (JsMap.get (codes "x-wal-scope")) (sym hs)
                          ∙ upstream-scope req.headers i handle true q;
                    },
                  ),
                )
          ]
        ]
      ]
