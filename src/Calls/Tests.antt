-- ===== src/Calls/Tests.antt =====
-- Runs of the call service, and the theorems at concrete states.
use wa_logger.Base.{◌⊎◌, ℕ, ◌≤◌, String, ◌≡◌, refl, true, false, none, some, [], ◌∷◌, arith, inl}
use mathlib.Core.Option
use mathlib.Core.Path.{subst}
use wa_logger.Base.Eq.{string_eq}
use wa_logger.Base.JsMap
use wa_logger.Base.JsMap.{JsMap}
use wa_logger.Calls.Types.{live, active, state, RawCall, Call, CallService, Env}
use wa_logger.Calls.Bridge.{latest_live}
use wa_logger.Calls.Service.{on_call, on_page_lost}
use wa_logger.Calls.Lifecycle.{IsCall, IsSound, Follows}
use wa_logger.Calls.Reports.{on_call-IsSound, on_call-Follows}
use wa_logger.Calls.Losses.{gone, get-on_page_lost}
use wa_logger.Calls.Streams.{on_page_lost-Quiet}
use wa_logger.Calls.Latest.{latest_live_lem}
use wa_logger.Calls.Hourly.{placed_of, recent, calls_per_hour}

abbrev no_calls : CallService
no_calls = record {
  calls = [];
  current_id = none;
  audio = none;
  bridge_on = false;
  video_client = none;
  video_on = false;
  last_peer_key_request = 0;
  started = [];
  last_peer_video = [];
  peers = [];
  recorder = none;
  recorder_starting = false;
  out = [];
}

abbrev at_work : ℕ → Env
at_work now = record {
  now = now;
  has_chat = λ id. false;
  blocks_active = false;
  blocks = λ id. false;
  unresolved = λ id. false;
  record_calls = true;
  has_bridge = true;
}

abbrev report : ℕ → RawCall
report st = record {
  id = "a";
  state = some st;
  outgoing = true;
  is_video = false;
  is_group = false;
  peer = some "p";
  peer_alt = none;
  group = none;
  peer_busy = false;
  failed_reason = none;
  log_result = none;
  ever_connected = false;
  user_ended = true;
  self_video = false;
  peer_video = false;
  removed = false;
}

abbrev talk : Call
talk = record {
  mapped = state active;
  info = record {
    id = "a";
    outgoing = true;
    state = active;
    video = false;
    self_video = false;
    peer_video = false;
    group = false;
    chat_id = some "p";
    started_at = 10;
    connected_at = some 20;
    ended_at = none;
    end_reason = none;
  };
}

abbrev talking : CallService
talking = record no_calls {
  calls = ("a", talk) ∷ [];
  current_id = some "a";
  audio = some 1;
  bridge_on = true;
}

talk-IsCall : IsCall talk.info
talk-IsCall = record {
  connected = λ h. inl refl;
  active_since = λ h. refl;
  reason = refl;
  end_time = refl;
}

found_talk : (k : String) (v : Call) → JsMap.get k talking.calls ≡ some v → (talk ≡ v) × ("a" ≡ k)
unfolding JsMap.get
found_talk k v e = ground (arith, e, string_eq.beq_iff "a" k)

talking-IsSound : IsSound talking.calls
unfolding JsMap.get
talking-IsSound = record {
  unique = (refl, tt);
  call = λ k v e. subst (λ c. IsCall c.info) (found_talk k v e).0 talk-IsCall;
  key = λ k v e. ground (arith, found_talk k v e);
}

on_call-IsSound_example : IsSound (on_call (at_work 30) (report 0) talking).calls
on_call-IsSound_example = on_call-IsSound (at_work 30) (report 0) talking talking-IsSound

talk_there : JsMap.get "a" talking.calls ≡ some talk
unfolding JsMap.get
talk_there = refl

on_call-Follows_example :
    (b : Call) × ((JsMap.get "a" (on_call (at_work 30) (report 2) talking).calls ≡ some b)
      × Follows talk.info b.info)
on_call-Follows_example = on_call-Follows (at_work 30) (report 2) "a" talk talking talk_there

get-on_page_lost_example :
    JsMap.get "a" (on_page_lost (at_work 30) talking).calls
    ≡ Option.map (gone 30) (JsMap.get "a" talking.calls)
get-on_page_lost_example = get-on_page_lost (at_work 30) talking "a" talking-IsSound.unique

on_page_lost-Quiet_example :
    ((on_page_lost (at_work 30) talking).bridge_on ≡ false)
    × ((on_page_lost (at_work 30) talking).video_on ≡ false)
    × ((on_page_lost (at_work 30) talking).audio ≡ none)
    × ((on_page_lost (at_work 30) talking).video_client ≡ none)
on_page_lost-Quiet_example = on_page_lost-Quiet (at_work 30) talking talking-IsSound.unique

calls_per_hour_example : recent 3_600_010 (placed_of (5 ∷ 7 ∷ []) [] []) ≤ 30
calls_per_hour_example =
    calls_per_hour (5 ∷ 7 ∷ []) 0 3_600_010 (omega arith, (omega arith, omega arith))

latest_live_lem_example :
    ((latest_live talking ≡ none)
      × ((k : String) (v : Call) → JsMap.get k talking.calls ≡ some v → live v.info.state ≡ false))
    ⊎ ((id : String) × (v : Call) × (latest_live talking ≡ some id)
        × (JsMap.get id talking.calls ≡ some v)
        × (live v.info.state ≡ true)
        × ((k : String) (w : Call)
            → JsMap.get k talking.calls ≡ some w
            → live w.info.state ≡ true
            → w.info.started_at ≤ v.info.started_at))
latest_live_lem_example = latest_live_lem talking talking-IsSound
