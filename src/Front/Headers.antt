-- ===== src/Front/Headers.antt =====
-- server/src/front/proxy.ts: the headers that a worker sees. The value of a header is a text.
use wa_logger.Base.{
  ◌≡◌, refl, ap, ◌∙◌, Bool, true, false, Option, none, some, [], ◌∷◌, if◌then◌else◌, ◌&&◌, ◌||◌,
  not, any, arith,
}
use wa_logger.Base.Text.{Text, codes, text_beq, text_eq, starts_with}
use wa_logger.Base.JsMap
use wa_logger.Base.JsMap.{JsMap}

pub record ClientInfo : Type 0 where
  pub ip : Text
  pub proto : Text
  pub host : Text

-- `WorkerHandle` of server/src/supervisor/protocol.ts
pub record WorkerHandle : Type 0 where
  pub socket_path : Text
  pub internal_token : Text

abbrev pub Headers : Type 0
Headers = JsMap Text Text

-- `HOP_BY_HOP`
unfoldable pub hop_by_hop : Text → Bool
hop_by_hop k = any (text_beq k) (
    codes "connection"
    ∷ codes "keep-alive"
    ∷ codes "proxy-authenticate"
    ∷ codes "proxy-authorization"
    ∷ codes "proxy-connection"
    ∷ codes "te"
    ∷ codes "trailer"
    ∷ codes "transfer-encoding"
    ∷ codes "upgrade"
    ∷ [])

-- `NOT_FORWARDED`
unfoldable pub not_forwarded : Text → Bool
not_forwarded k = any (text_beq k) (
    codes "x-forwarded-for"
    ∷ codes "x-forwarded-proto"
    ∷ codes "x-forwarded-host"
    ∷ codes "x-forwarded-port"
    ∷ codes "x-forwarded-server"
    ∷ codes "forwarded"
    ∷ codes "x-real-ip"
    ∷ codes "via"
    ∷ [])

-- `isOurs`
unfoldable pub is_ours : Text → Bool
is_ours k = starts_with (codes "x-wal-") k

abbrev keeps_upgrade : Bool → Text → Bool
keeps_upgrade keep k = keep && (text_beq k (codes "connection") || text_beq k (codes "upgrade"))

-- The two tests of the loop.
unfoldable pub passes : Bool → Text → Bool
unfolding hop_by_hop not_forwarded is_ours
passes keep k =
    not (not_forwarded k || is_ours k) && not (hop_by_hop k && not (keeps_upgrade keep k))

unfoldable pub copy_headers : Bool → Headers → Headers → Headers
copy_headers keep [] out = out
copy_headers keep ((k, v) ∷ src) out =
    copy_headers keep src (if passes keep k then JsMap.set k v out else out)

-- `upstreamHeaders`
unfoldable pub upstream_headers : Headers → ClientInfo → WorkerHandle → Bool → Bool → Headers
upstream_headers src client handle keep internal =
    let out = JsMap.set (codes "x-wal-internal") handle.internal_token (
      JsMap.set (codes "x-forwarded-host") client.host (
        JsMap.set (codes "x-forwarded-proto") client.proto
          (JsMap.set (codes "x-forwarded-for") client.ip (copy_headers keep src [])))) in
    if internal then JsMap.set (codes "x-wal-scope") (codes "internal") out else out

get-copy_headers :
    (keep : Bool) (src out : Headers) (k : Text)
    → JsMap.IsUnique src
    → JsMap.get k (copy_headers keep src out) ≡ (
        if passes keep k
        then elim (JsMap.get k src) [ none ↦ JsMap.get k out | some v ↦ some v ]
        else JsMap.get k out)
unfolding copy_headers JsMap.get
get-copy_headers keep [] out k u = ground arith
get-copy_headers keep ((j, v) ∷ src) out k u = ground (
  arith,
  get-copy_headers keep src (if passes keep j then JsMap.set j v out else out) k u.1,
  JsMap.get-set j k v out,
  text_eq.beq_iff j k,
  u.0,
)

-- The headers of a client that a worker may see: none under the gateway's own prefix, none that tells how a request was
-- forwarded, and none that is for one hop, but for the two that ask for an upgrade, where upgrades are kept.
abbrev pub may_pass : Bool → Text → Bool
may_pass keep k =
    let forwarded = any (text_beq k) (
      codes "x-forwarded-for"
      ∷ codes "x-forwarded-proto"
      ∷ codes "x-forwarded-host"
      ∷ codes "x-forwarded-port"
      ∷ codes "x-forwarded-server"
      ∷ codes "forwarded"
      ∷ codes "x-real-ip"
      ∷ codes "via"
      ∷ []) in
    let one_hop = any (text_beq k) (
      codes "connection"
      ∷ codes "keep-alive"
      ∷ codes "proxy-authenticate"
      ∷ codes "proxy-authorization"
      ∷ codes "proxy-connection"
      ∷ codes "te"
      ∷ codes "trailer"
      ∷ codes "transfer-encoding"
      ∷ codes "upgrade"
      ∷ []) in
    let asks = text_beq k (codes "connection") || text_beq k (codes "upgrade") in
    not (starts_with (codes "x-wal-") k) && (not forwarded && (not one_hop || (keep && asks)))

same_test :
    (forwarded ours one_hop upgrade : Bool)
    → (not (forwarded || ours) && not (one_hop && not upgrade))
      ≡ (not ours && (not forwarded && (not one_hop || upgrade)))
same_test forwarded ours one_hop upgrade = ground arith

passes-may_pass : (keep : Bool) (k : Text) → passes keep k ≡ may_pass keep k
unfolding passes
passes-may_pass keep k =
    same_test (not_forwarded k) (is_ours k) (hop_by_hop k) (keeps_upgrade keep k)

-- What the client's headers leave of one.
abbrev pub from_client : Bool → Text → Headers → Option Text
from_client keep k src = if may_pass keep k then JsMap.get k src else none

-- What the gateway sets, and behind it what the client sent.
abbrev pub rest_of : ClientInfo → WorkerHandle → Bool → Text → Headers → Option Text
rest_of client handle keep k src =
    if text_beq (codes "x-wal-internal") k
    then some handle.internal_token
    else if text_beq (codes "x-forwarded-host") k
    then some client.host
    else if text_beq (codes "x-forwarded-proto") k
    then some client.proto
    else if text_beq (codes "x-forwarded-for") k
    then some client.ip
    else from_client keep k src

same_value : (o : Option Text) → elim o [ none ↦ none | some v ↦ some v ] ≡ o
same_value none = refl
same_value (some v) = refl

get-copied :
    (keep : Bool) (src : Headers) (k : Text)
    → JsMap.IsUnique src
    → JsMap.get k (copy_headers keep src []) ≡ from_client keep k src
unfolding JsMap.get
get-copied keep src k u =
    get-copy_headers keep src [] k u
    ∙ ap (λ b. if b then elim (JsMap.get k src) [ none ↦ none | some v ↦ some v ] else none)
        (passes-may_pass keep k)
    ∙ ap (λ o. if may_pass keep k then o else none) (same_value (JsMap.get k src))

get-four :
    (a b c d k v w x y : Text) (m : Headers)
    → JsMap.get k (JsMap.set d y (JsMap.set c x (JsMap.set b w (JsMap.set a v m)))) ≡ (
        if text_beq d k
        then some y
        else if text_beq c k
        then some x
        else if text_beq b k
        then some w
        else if text_beq a k
        then some v
        else JsMap.get k m)
get-four a b c d k v w x y m = rw (
  JsMap.get-set d k y (JsMap.set c x (JsMap.set b w (JsMap.set a v m))),
  JsMap.get-set c k x (JsMap.set b w (JsMap.set a v m)),
  JsMap.get-set b k w (JsMap.set a v m),
  JsMap.get-set a k v m,
)

-- The headers that a worker sees are those of the gateway, whatever the client sent under their names, and the
-- client's own but for those under `x-wal-`, those that tell how a request was forwarded, and those for one
-- hop (an upgrade keeps two of them); so the mark of an internal call is there for internal calls only.
pub get-upstream_headers :
    (src : Headers) (client : ClientInfo) (handle : WorkerHandle) (keep internal : Bool) (k : Text)
    → JsMap.IsUnique src
    → JsMap.get k (upstream_headers src client handle keep internal) ≡ (
        if internal && text_beq (codes "x-wal-scope") k
        then some (codes "internal")
        else rest_of client handle keep k src)
unfolding upstream_headers
get-upstream_headers src client handle keep internal k u =
    let copied = copy_headers keep src [] in
    let four =
      get-four (codes "x-forwarded-for") (codes "x-forwarded-proto") (codes "x-forwarded-host")
        (codes "x-wal-internal") k client.ip client.proto client.host handle.internal_token copied
      ∙ ap
          (λ (o : Option Text).
            if text_beq (codes "x-wal-internal") k
            then some handle.internal_token
            else if text_beq (codes "x-forwarded-host") k
            then some client.host
            else if text_beq (codes "x-forwarded-proto") k
            then some client.proto
            else if text_beq (codes "x-forwarded-for") k
            then some client.ip
            else o)
          (get-copied keep src k u) in
    elim internal
      as (λ b. JsMap.get k (upstream_headers src client handle keep b) ≡ (
        if b && text_beq (codes "x-wal-scope") k
        then some (codes "internal")
        else rest_of client handle keep k src)) [
          | false ↦ four
          | true ↦
              JsMap.get-set (codes "x-wal-scope") k (codes "internal")
                (upstream_headers src client handle keep false)
              ∙ ap
                  (λ (o : Option Text).
                    if text_beq (codes "x-wal-scope") k then some (codes "internal") else o)
                  four
        ]
