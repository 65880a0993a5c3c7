-- ===== src/Front/Tests.antt =====
-- Runs of the gateway, and the theorems at concrete states.
use wa_logger.Base.{
  ℕ, ◌≤◌, ◌≡◌, refl, true, false, Option, none, some, List, [], ◌∷◌, arith, not, ◌||◌,
}
use wa_logger.Base.Text.{Text, codes, text_eq, split, trim, before, number, lower}
use wa_logger.Base.JsMap
use wa_logger.Front.Rows.{UserRow, UserRole, SystemRepo, get_user, get_user_by_name, get_listener}
use wa_logger.Front.Config.{port_range, add_ports, add_parts, insert, sort, member, parse_port_list}
use wa_logger.Front.Config.Ports.{IsAscending, covers, parts_of, parse_port_list_lem}
use wa_logger.Front.Headers.{
  ClientInfo, WorkerHandle, Headers, upstream_headers, copy_headers, passes, hop_by_hop,
  not_forwarded, is_ours, rest_of, get-upstream_headers,
}
use wa_logger.Front.Gateway.{
  CookieSecure, Gateway, Request, local_port, user_port, usable, effective, expected_origin, info,
  secure, secure_for, identify, get_cookie, find_cookie, tenant_cookie_name, origin_allowed,
}
use wa_logger.Front.Forward.{
  Outside, forbidden, proxied, clean_api_path, clean_decoded, api_token_user, safe_method,
  forward_signed_in, forward_api, on_upgrade,
}
use wa_logger.Front.Forward.Checked.{
  IsUsable, IsAsked, IsMarked, forward_api-proxied, on_upgrade-proxied,
}
use wa_logger.Front.Admin.{creates, deletes_port, change}
use wa_logger.Front.Admin.Ports.{IsHeld, change-IsHeld}
use wa_logger.Front.Admin.Users.{IsSound, is_spent, change-IsSound}

abbrev spec_text : Option Text
spec_text = some (codes "8110, 8101-8103,8102")

ports_run : parse_port_list spec_text ≡ some (8101 ∷ 8102 ∷ 8103 ∷ 8110 ∷ [])
unfolding parse_port_list add_parts port_range add_ports sort insert split trim before number
ports_run = refl

bad_range_run : parse_port_list (some (codes "8103-8101")) ≡ none
unfolding parse_port_list add_parts port_range add_ports sort insert split trim before number
bad_range_run = refl

abbrev four_ports : List ℕ
four_ports = 8101 ∷ 8102 ∷ 8103 ∷ 8110 ∷ []

parse_port_list_lem_example :
    IsAscending four_ports
    × ((p : ℕ) → member p four_ports ≡ covers p (parts_of spec_text))
    × ((p : ℕ) → member p four_ports ≡ true → (1 ≤ p) × (p ≤ 65_535))
parse_port_list_lem_example = parse_port_list_lem spec_text four_ports ports_run

abbrev client : ClientInfo
client = record { ip = codes "10.0.0.7"; proto = codes "https"; host = codes "wal.example" }

abbrev worker : WorkerHandle
worker = record { socket_path = codes "/run/wal/w/2/s.sock"; internal_token = codes "secret" }

abbrev forged : Headers
forged =
    (codes "accept", codes "*/*")
    ∷ (codes "x-forwarded-for", codes "1.2.3.4")
    ∷ (codes "x-wal-scope", codes "internal")
    ∷ []

forged-IsUnique : JsMap.IsUnique forged
unfolding JsMap.get
forged-IsUnique = (refl, (refl, (refl, tt)))

get-upstream_headers_example :
    JsMap.get (codes "x-wal-scope") (upstream_headers forged client worker false false)
    ≡ rest_of client worker false (codes "x-wal-scope") forged
get-upstream_headers_example =
    get-upstream_headers forged client worker false false (codes "x-wal-scope") forged-IsUnique

abbrev ann : UserRow
ann = record {
  id = 1;
  username = codes "Ann";
  role = UserRole.admin;
  disabled = false;
  port = none;
  created_at = 5;
  last_login_at = none;
}

abbrev bob : UserRow
bob = record {
  id = 2;
  username = codes "bob";
  role = UserRole.user;
  disabled = false;
  port = some 8101;
  created_at = 6;
  last_login_at = none;
}

abbrev two_users : SystemRepo
two_users = record {
  users = ann ∷ bob ∷ [];
  next_id = 3;
  listeners = record { port = 8101; public_origin = none; created_at = 6 } ∷ [];
  audits = [];
}

name_run : get_user_by_name (codes " ANN ") two_users ≡ some ann
unfolding get_user_by_name trim lower
name_run = refl

abbrev gate : Gateway
gate = record {
  config = record {
    public_origin = none;
    cookie_secure = CookieSecure.fixed true;
    trust_proxy = 1;
    setup_token = codes "setup";
    max_users = 10;
    extra_ports = 8101 ∷ 8102 ∷ [];
    parse_url = λ u. (codes "https:", codes "wal.example");
  };
  repo = two_users;
  default_port = 8080;
  open_ports = 8080 ∷ 8101 ∷ [];
}

abbrev reached : Outside
reached = record { decode = λ p. some p; ensure = λ id. some worker }

abbrev request : Text → Option Text → Request
request method origin = record {
  method = method;
  url = codes "/api/chats?x=1";
  cookie = some (codes "a=b; __Host-wal_tenant=2");
  origin = origin;
  authorization = none;
  upgrade = none;
  headers = forged;
  info = client;
  local_port = some 8101;
}

abbrev sent : Headers
sent =
    (codes "accept", codes "*/*")
    ∷ (codes "x-forwarded-for", codes "10.0.0.7")
    ∷ (codes "x-forwarded-proto", codes "https")
    ∷ (codes "x-forwarded-host", codes "wal.example")
    ∷ (codes "x-wal-internal", codes "secret")
    ∷ []

forward_run : forward_api reached gate (request (codes "GET") none) ≡ proxied bob sent
unfolding forward_api clean_api_path clean_decoded api_token_user forward_signed_in identify
    get_cookie find_cookie tenant_cookie_name usable user_port get_user local_port secure info
    effective expected_origin get_listener safe_method upstream_headers copy_headers passes
    hop_by_hop not_forwarded is_ours split trim before number JsMap.set
forward_run = refl

forward_api-proxied_example :
    (clean_api_path reached (codes "/api/chats?x=1") ≡ true)
    × (IsUsable gate 8101 bob
        × IsAsked gate (request (codes "GET") none) bob
        × IsMarked reached bob sent)
unfolding local_port
forward_api-proxied_example =
    forward_api-proxied reached gate (request (codes "GET") none) bob sent forged-IsUnique
      forward_run

-- The same from another origin, with a method that changes something.
forward_cross_run :
    forward_api reached gate (request (codes "POST") (some (codes "https://evil.example")))
    ≡ forbidden
unfolding forward_api clean_api_path clean_decoded api_token_user forward_signed_in identify
    get_cookie find_cookie tenant_cookie_name usable user_port get_user local_port secure info
    effective expected_origin get_listener safe_method origin_allowed split trim before number
forward_cross_run = refl

abbrev upgrade : Request
upgrade = record {
  method = codes "GET";
  url = codes "/api/vnc";
  cookie = some (codes "__Host-wal_tenant=2");
  origin = some (codes "https://wal.example");
  authorization = none;
  upgrade = some (codes "WebSocket");
  headers = forged;
  info = client;
  local_port = some 8101;
}

upgrade_run : on_upgrade reached gate upgrade ≡ proxied bob sent
unfolding on_upgrade clean_api_path clean_decoded identify get_cookie find_cookie tenant_cookie_name
    usable user_port get_user local_port effective expected_origin get_listener origin_allowed
    upstream_headers copy_headers passes hop_by_hop not_forwarded is_ours split trim before number
    lower JsMap.set
upgrade_run = refl

on_upgrade-proxied_example :
    (clean_api_path reached (codes "/api/vnc") ≡ true)
    × ((identify gate upgrade.cookie
            (local_port gate upgrade)
            (secure_for gate (effective gate client (local_port gate upgrade)))
          ≡ some bob)
        × IsUsable gate (local_port gate upgrade) bob
        × (origin_allowed gate
              (some (codes "https://wal.example"))
              (local_port gate upgrade)
              (effective gate client (local_port gate upgrade))
            ≡ true)
        × IsMarked reached bob sent)
on_upgrade-proxied_example =
    on_upgrade-proxied reached gate upgrade bob sent forged-IsUnique upgrade_run

two_users-IsHeld : IsHeld two_users
two_users-IsHeld = ((λ p e. absurd (ground (arith, e))), ((λ p e. ground (arith, e)), tt))

change-IsHeld_example :
    IsHeld (change (request (codes "DELETE") none) 1 9 (deletes_port 8101) gate).repo
change-IsHeld_example =
    change-IsHeld (request (codes "DELETE") none) 1 9 (deletes_port 8101) gate two_users-IsHeld

-- Id 1 was given to a user who is deleted.
abbrev only_bob : Gateway
only_bob = record gate { repo = record two_users { users = bob ∷ [] } }

only_bob-IsSound : IsSound 3 only_bob.repo
only_bob-IsSound = record { distinct = (refl, tt); below = (omega arith, tt); next = omega arith }

change-IsSound_example :
    let after =
      (change
        (request (codes "POST") none)
        1
        9
        (creates (codes "eve") (some 8101) false none)
        only_bob).repo in
    IsSound 3 after × ((not (is_spent 1 only_bob.repo) || is_spent 1 after) ≡ true)
change-IsSound_example =
    change-IsSound 3 1 (request (codes "POST") none) 1 9
      (creates (codes "eve") (some 8101) false none) only_bob only_bob-IsSound
