-- ===== src/Calls/Bridge.antt =====
-- Which call is shown, and when its audio and video flow: `current`, `view`, `emit`, `latestLive`,
-- `wantBridge` and `syncBridge` of `CallService`.
use wa_logger.Base.{
  ℕ, String, Bool, true, false, Option, none, some, List, [], ◌∷◌, ◌++◌, if◌then◌else◌, is_some,
  or_else, ◌&&◌, ◌||◌, not, any, all, ltb,
}
use wa_logger.Base.Eq.{string_eq}
use mathlib.Core.Option
use wa_logger.Base.JsMap
use wa_logger.Base.JsMap.{JsMap}
use wa_logger.Calls.Types.{
  connecting, active, calling, ringing, ended, CallInfo, CallView, Call, Effect, emitted,
  closed_audio, closed_video, set_bridge, set_video_bridge, stopped_recorder, CallService, Env,
  same_state, live,
}

abbrev pub push : Effect → CallService → CallService
push e s = record s { out = s.out ++ (e ∷ []) }

-- `recording`
abbrev pub recording : CallService → Bool
recording s = elim s.recorder [ none ↦ false | some r ↦ not r.ending ]

abbrev nonempty : List String → Bool
nonempty [] = false
nonempty (x ∷ xs) = true

-- `recordingBlocked`
unfoldable pub recording_blocked : Env → String → CallService → Bool
unfolding JsMap.get
recording_blocked env id s =
    let ids = or_else (JsMap.get id s.peers) [] in
    env.blocks_active && (any env.blocks ids || (nonempty ids && all env.unresolved ids))

unfoldable pub view : Env → CallService → CallInfo → CallView
unfolding recording_blocked
view env s info = record {
  info = info;
  audio = is_some s.audio;
  video_client = is_some s.video_client;
  recording = recording s;
  recording_blocked = recording_blocked env info.id s;
}

-- `this.currentId ? this.calls.get(this.currentId) : undefined`
unfoldable pub current : CallService → Option CallInfo
current s = elim s.current_id [
  | none ↦ none
  | some id ↦ Option.map (λ call. call.info) (JsMap.get id s.calls)
]

unfoldable pub emit_call : Env → CallInfo → CallService → CallService
emit_call env info s = push (emitted (view env s info)) s

-- The loop of `latestLive`: the live call that started last, the first of those that started together.
unfoldable pub latest_from : Option CallInfo → JsMap String Call → Option CallInfo
latest_from best [] = best
latest_from best ((k, call) ∷ rest) =
    latest_from
      (if live call.info.state
          && elim best [ none ↦ true | some b ↦ ltb b.started_at call.info.started_at ]
        then some call.info
        else best)
      rest

unfoldable pub latest_live : CallService → Option String
unfolding latest_from
latest_live s = Option.map (λ info. info.id) (latest_from none s.calls)

-- The call is being placed by us or is connected.
abbrev pub flows : CallInfo → Bool
flows c =
    same_state c.state active
    || (same_state c.state connecting
        || (c.outgoing && (same_state c.state calling || same_state c.state ringing)))

-- `wantBridge`
unfoldable pub want_bridge : CallService → Bool
unfolding current
want_bridge s = elim (current s) [
  | none ↦ false
  | some c ↦ (is_some s.audio || is_some s.recorder) && flows c
]

-- `wantVideo` of `syncBridge`
unfoldable pub want_video : CallService → Bool
unfolding current
want_video s = elim (current s) [
  | none ↦ false
  | some c ↦ (is_some s.video_client || (is_some s.recorder && c.video)) && flows c
]

abbrev over : Option CallInfo → Bool
over none = true
over (some c) = same_state c.state ended

abbrev close_code : Option CallInfo → ℕ
close_code none = 4004
close_code (some c) = 1000

-- The four statements of `syncBridge`.
unfoldable pub drop_audio : CallService → CallService
drop_audio s = elim s.audio [
  | none ↦ s
  | some a ↦
      if over (current s)
      then push (closed_audio a (close_code (current s))) (record s { audio = none })
      else s
]

unfoldable pub drop_video : CallService → CallService
drop_video s = elim s.video_client [
  | none ↦ s
  | some v ↦
      if over (current s)
      then push (closed_video v (close_code (current s))) (record s { video_client = none })
      else s
]

abbrev differ : Bool → Bool → Bool
differ true b = not b
differ false b = b

unfoldable pub switch_audio : Env → CallService → CallService
switch_audio env s =
    if differ (want_bridge s) s.bridge_on
    then record s {
      bridge_on = want_bridge s;
      out = if env.has_bridge then s.out ++ (set_bridge (want_bridge s) ∷ []) else s.out;
    }
    else s

-- What comes of the page's answer is `switched_video` of Calls.Clients.
unfoldable pub switch_video : Env → CallService → CallService
switch_video env s =
    if differ (want_video s) s.video_on
    then record s {
      video_on = want_video s;
      out = if env.has_bridge then s.out ++ (set_video_bridge (want_video s) ∷ []) else s.out;
    }
    else s

unfoldable pub sync_bridge : Env → CallService → CallService
unfolding drop_audio drop_video switch_audio switch_video
sync_bridge env s = switch_video env (switch_audio env (drop_video (drop_audio s)))

-- `this.recorder?.stop()`: the recorder is `ending` from then on.
unfoldable pub stop_recorder : CallService → CallService
stop_recorder s = elim s.recorder [
  | none ↦ s
  | some r ↦
      if r.ending
      then s
      else push stopped_recorder (record s { recorder = some (record r { ending = true }) })
]
