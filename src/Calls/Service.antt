-- ===== src/Calls/Service.antt =====
-- What the page reports to `CallService`: `onCall`, the timer of an ended call, and `onPageLost`.
use wa_logger.Base.{
  ℕ, String, Bool, true, false, Option, none, some, List, [], ◌∷◌, ◌++◌, if◌then◌else◌, is_some,
  ◌&&◌, ◌||◌, not, Result, ok, err,
}
use wa_logger.Base.Errors
use wa_logger.Base.Eq.{string_eq}
use wa_logger.Base.JsMap
use wa_logger.Base.JsMap.{JsMap}
use wa_logger.Calls.Types.{
  CallState, active, ended, Mapped, state, completed, failed, RawCall, CallInfo, Call,
  peer_video_state, started_recorder, linger, CallService, Env, same_state, live, map_call_state,
  end_reason,
}
use wa_logger.Calls.Bridge.{
  push, recording, recording_blocked, current, emit_call, latest_live, sync_bridge, stop_recorder,
}

abbrev logged : Env → Option String → Bool
logged env none = false
logged env (some id) = env.has_chat id

-- `chatFor`
unfoldable pub chat_for : Env → RawCall → Option String
chat_for env c =
    if c.is_group && is_some c.group
    then c.group
    else if logged env c.peer
    then c.peer
    else if logged env c.peer_alt
    then c.peer_alt
    else if is_some c.peer
    then c.peer
    else c.peer_alt

-- The state of a call that is seen for the first time: only calls that are alive are tracked.
abbrev pub alive : Option Mapped → Option CallState
alive (some (state ended)) = none
alive (some (state st)) = some st
alive _ = none

abbrev pub new_call : Env → RawCall → CallState → Call
new_call env c st = record {
  mapped = state st;
  info = record {
    id = c.id;
    outgoing = c.outgoing;
    state = st;
    video = c.is_video;
    self_video = c.self_video;
    peer_video = c.peer_video;
    group = c.is_group;
    chat_id = chat_for env c;
    started_at = env.now;
    connected_at = none;
    ended_at = none;
    end_reason = none;
  };
}

abbrev listed : Option String → List String → List String
listed none l = l
listed (some id) l = id ∷ l

-- `LIVE.has(this.calls.get(this.currentId)?.info.state ?? 'ended')`
abbrev pub current_live : CallService → Bool
current_live s = elim (current s) [ none ↦ false | some info ↦ live info.state ]

-- The `if (!rec)` block behind its test.
unfoldable pub track : Env → RawCall → Call → CallService → CallService
unfolding current
track env c call s =
    let s' = record s {
      peers =
          JsMap.set c.id (if c.is_group then [] else listed c.peer (listed c.peer_alt [])) s.peers;
      calls = JsMap.set c.id call s.calls;
    } in
    if current_live s' then s' else record s' { current_id = some c.id }

abbrev pub end_of : Mapped → CallState
end_of (state st) = st
end_of Mapped.elsewhere = ended

-- After connecting, the setup states are not gone back to.
unfoldable pub next_state : Mapped → CallInfo → CallState
next_state m info =
    if is_some info.connected_at && (live (end_of m) && not (same_state (end_of m) active))
    then active
    else end_of m

abbrev differ : Bool → Bool → Bool
differ true b = not b
differ false b = b

abbrev video_changed : RawCall → CallInfo → Bool
video_changed c info =
    (not info.video && c.is_video)
    || (differ info.self_video c.self_video || differ info.peer_video c.peer_video)

-- The fields that `onCall` sets, with the call's new state.
unfoldable pub updated : Env → RawCall → Mapped → CallState → CallInfo → CallInfo
updated env c m next info =
    let info' = record info {
      chat_id = if is_some info.chat_id then info.chat_id else chat_for env c;
      video = info.video || c.is_video;
      self_video = if same_state next ended then false else c.self_video;
      peer_video = if same_state next ended then false else c.peer_video;
      state = next;
      connected_at =
          if same_state next active && not (is_some info.connected_at)
          then some env.now
          else info.connected_at;
    } in
    if same_state next ended
    then record info' { ended_at = some env.now; end_reason = some (end_reason c info' m) }
    else info'

abbrev known_video : Bool → Option Bool → Bool
known_video on none = false
known_video on (some b) = not (differ b on)

unfoldable pub note_peer_video : CallInfo → CallService → CallService
note_peer_video info s =
    if known_video info.peer_video (JsMap.get info.id s.last_peer_video) then s else record s {
      last_peer_video = JsMap.set info.id info.peer_video s.last_peer_video;
      out = if is_some s.recorder then s.out ++ (peer_video_state info.peer_video ∷ []) else s.out;
    }

-- `known`
unfoldable pub known : String → CallService → Result CallInfo
known id s = elim (JsMap.get id s.calls) [
  | none ↦ err Errors.not_found
  | some call ↦ if same_state call.info.state ended then err Errors.not_found else ok call.info
]

-- `startRecording` up to its `await`: whether a recorder is now being started.
unfoldable pub start_recording : Env → String → Bool → CallService → Result Bool × CallService
unfolding known
start_recording env id auto s = elim (known id s) [
  | err e ↦ (err e, s)
  | ok c ↦
      if recording s || s.recorder_starting
      then (ok false, s)
      else if not (same_state c.state active)
      then (err Errors.conflict, s)
      else if recording_blocked env id s
      then (err Errors.conflict, s)
      else (ok true, push (started_recorder id auto) (record s { recorder_starting = true }))
]

abbrev is_current : String → CallService → Bool
is_current id s = elim s.current_id [ none ↦ false | some k ↦ string_eq.beq k id ]

-- The `if (next === 'ended')` block.
unfoldable pub after_end : String → CallService → CallService
unfolding stop_recorder latest_live
after_end id s =
    let s' =
      push (linger id)
        (stop_recorder (record s { last_peer_video = JsMap.delete id s.last_peer_video })) in
    if is_current id s' && is_some (latest_live s')
    then record s' { current_id = latest_live s' }
    else s'

-- The test for the early return of `onCall`: nothing that is shown changes.
unfoldable pub unchanged : RawCall → Mapped → Bool → CallInfo → Bool
unfolding next_state
unchanged c m created info =
    same_state (next_state m info) info.state && (not created && not (video_changed c info))

-- `onCall` from there on, up to the end of the call.
unfoldable pub noted : Env → RawCall → Mapped → Call → CallService → CallService
unfolding next_state updated note_peer_video start_recording
noted env c m call s =
    let next = next_state m call.info in
    let info = updated env c m next call.info in
    let s1 = record s { calls = JsMap.set c.id (record { info = info; mapped = m }) s.calls } in
    let s2 = note_peer_video info s1 in
    if (same_state next active && not (is_some call.info.connected_at)) && env.record_calls
    then (start_recording env info.id true s2).1
    else s2

-- `onCall` behind the test on the state, for a call in the map.
unfoldable pub update : Env → RawCall → Mapped → Bool → Call → CallService → CallService
unfolding unchanged noted after_end emit_call sync_bridge
update env c m created call s =
    if unchanged c m created call.info
    then record s { calls = JsMap.set c.id (record call { mapped = m }) s.calls }
    else let next = next_state m call.info in
      let s1 = noted env c m call s in
      let s2 = if same_state next ended then after_end c.id s1 else s1 in
      sync_bridge env (emit_call env (updated env c m next call.info) s2)

abbrev pub if_tracked : Env → RawCall → Option Mapped → Bool → Call → CallService → CallService
if_tracked env c none created call s = s
if_tracked env c (some m) created call s =
    if same_state call.info.state ended then s else update env c m created call s

abbrev pub mapped_of : RawCall → Option Mapped
mapped_of c = if c.removed then some (state ended) else map_call_state c.state

-- `onCall`
unfoldable pub on_call : Env → RawCall → CallService → CallService
unfolding update track
on_call env c s =
    let m = mapped_of c in
    elim (JsMap.get c.id s.calls) [
      | some call ↦ if_tracked env c m false call s
      | none ↦ elim (alive m) [
        | none ↦ s
        | some st ↦ if_tracked env c m true (new_call env c st) (track env c (new_call env c st) s)
      ]
    ]

-- The timer that an ended call sets.
unfoldable pub linger_over : String → CallService → CallService
unfolding latest_live
linger_over id s =
    let s' = record s { calls = JsMap.delete id s.calls; peers = JsMap.delete id s.peers } in
    if is_current id s' then record s' { current_id = latest_live s' } else s'

-- What `onPageLost` does to one call.
abbrev pub lost : ℕ → CallInfo → CallInfo
lost now info = record info {
  state = ended;
  ended_at = some now;
  end_reason = some (if is_some info.connected_at then completed else failed);
}

-- Its loop, over the entries that were there when it began.
unfoldable pub lose_all : Env → JsMap String Call → CallService → CallService
lose_all env [] s = s
lose_all env ((k, call) ∷ rest) s = lose_all env rest (
    if same_state call.info.state ended
    then s
    else emit_call env (lost env.now call.info)
        (record s { calls = JsMap.set k (record call { info = lost env.now call.info }) s.calls }))

unfoldable pub on_page_lost : Env → CallService → CallService
unfolding lose_all stop_recorder sync_bridge
on_page_lost env s = sync_bridge env (lose_all env s.calls (stop_recorder s))
