-- ===== src/Calls/Clients.antt =====
-- What the owner's clients do: attaching audio and video, the streams, and the controls of a call up to
-- the request to the page and behind its answer.
use wa_logger.Base.{
  ℕ, ◌+◌, ◌-◌, String, Bool, true, false, Option, none, some, List, [], ◌∷◌, ◌++◌, if◌then◌else◌,
  is_some, ◌&&◌, ◌||◌, not, ltb, ◌==◌, Result, ok, err, length,
}
use wa_logger.Base.Errors
use wa_logger.Base.Eq.{string_eq}
use wa_logger.Base.JsMap
use wa_logger.Base.JsMap.{JsMap}
use wa_logger.Calls.Types.{
  incoming, ended, RawCall, CallInfo, CallView, Call, Recorder, Effect, closed_audio, closed_video,
  key_frame, client_key_frame, sent_audio, recorded_peer, recorded_own, page_audio, sent_video,
  page_video, peer_video_state, CallService, Env, same_state,
}
use wa_logger.Calls.Bridge.{push, view, current, emit_call, sync_bridge, stop_recorder}
use wa_logger.Calls.Service.{known, on_call}

-- `MAX_CALLS_PER_HOUR`
abbrev pub max_calls_per_hour : ℕ
max_calls_per_hour = 30

abbrev pub is_client : ℕ → Option ℕ → Bool
is_client k none = false
is_client k (some c) = c == k

abbrev pub push_if : Bool → Effect → CallService → CallService
push_if true e s = push e s
push_if false e s = s

-- `onPageAudio`
unfoldable pub on_page_audio : CallService → CallService
on_page_audio s =
    if s.bridge_on
    then push_if (is_some s.recorder) recorded_peer
        (elim s.audio [ none ↦ s | some a ↦ push (sent_audio a) s ])
    else s

-- `onPageVideo`
unfoldable pub on_page_video : CallService → CallService
on_page_video s =
    if s.video_on
    then push_if (is_some s.recorder) recorded_peer
        (elim s.video_client [ none ↦ s | some v ↦ push (sent_video v) s ])
    else s

-- `onPageNeedsKey`
unfoldable pub on_page_needs_key : CallService → CallService
on_page_needs_key s = elim s.video_client [ none ↦ s | some v ↦ push (client_key_frame v) s ]

-- `audioIn`
unfoldable pub audio_in : Env → ℕ → CallService → CallService
audio_in env k s =
    if is_client k s.audio && s.bridge_on
    then push_if env.has_bridge page_audio (push_if (is_some s.recorder) recorded_own s)
    else s

-- `videoIn`
unfoldable pub video_in : Env → ℕ → CallService → CallService
video_in env k s =
    if is_client k s.video_client && s.video_on then push_if env.has_bridge page_video s else s

-- `requestPeerKeyFrame` without a client
unfoldable pub ask_key_frame : Env → CallService → CallService
ask_key_frame env s =
    if ltb (env.now - s.last_peer_key_request) 1000
    then s
    else push_if env.has_bridge key_frame (record s { last_peer_key_request = env.now })

-- The page has answered `setVideoBridge` of `syncBridge`.
unfoldable pub switched_video : Env → Bool → CallService → CallService
unfolding ask_key_frame
switched_video env on s = if on then ask_key_frame env s else s

-- `requestPeerKeyFrame` for a client
unfoldable pub request_peer_key_frame : Env → ℕ → CallService → CallService
unfolding ask_key_frame
request_peer_key_frame env k s = if is_client k s.video_client then ask_key_frame env s else s

-- `prev?.close(4000, …)`
abbrev close_audio : Option ℕ → CallService → CallService
close_audio none s = s
close_audio (some a) s = push (closed_audio a 4000) s

abbrev close_video : Option ℕ → CallService → CallService
close_video none s = s
close_video (some v) s = push (closed_video v 4000) s

-- `attachAudio`: whether the client was taken.
unfoldable pub attach_audio : Env → ℕ → CallService → Bool × CallService
unfolding current emit_call sync_bridge
attach_audio env k s = elim (current s) [
  | none ↦ (false, s)
  | some c ↦
      if same_state c.state ended
      then (false, s)
      else let s1 = record s { audio = some k } in
        let s2 = close_audio s.audio s1 in (true, sync_bridge env (emit_call env c s2))
]

abbrev emit_current : Env → CallService → CallService
emit_current env s = elim (current s) [
  | none ↦ s
  | some c ↦ if same_state c.state ended then s else emit_call env c s
]

-- What `attachAudio` returns.
unfoldable pub detach_audio : Env → ℕ → CallService → CallService
unfolding sync_bridge
detach_audio env k s =
    if is_client k s.audio
    then sync_bridge env (emit_current env (record s { audio = none }))
    else s

-- `attachVideo`
unfoldable pub attach_video : Env → ℕ → CallService → Bool × CallService
unfolding current emit_call sync_bridge ask_key_frame
attach_video env k s = elim (current s) [
  | none ↦ (false, s)
  | some c ↦
      if same_state c.state ended
      then (false, s)
      else let s1 = record s { video_client = some k } in
        let s2 = close_video s.video_client s1 in
        let s3 = sync_bridge env (emit_call env c s2) in
        (true, push (client_key_frame k) (if s3.video_on then ask_key_frame env s3 else s3))
]

-- What `attachVideo` returns.
unfoldable pub detach_video : Env → ℕ → CallService → CallService
unfolding sync_bridge
detach_video env k s =
    if is_client k s.video_client
    then sync_bridge env (emit_current env (record s { video_client = none }))
    else s

-- The loop of `charge`.
unfoldable pub drop_started : ℕ → List ℕ → List ℕ
drop_started now [] = []
drop_started now (t ∷ ts) =
    let rest = drop_started now ts in if ltb (t + 3_600_000) now then rest else t ∷ ts

abbrev first_or : ℕ → List ℕ → ℕ
first_or d [] = d
first_or d (t ∷ ts) = t

-- `charge`
unfoldable pub charge : ℕ → List ℕ → Result Bool × List ℕ
unfolding drop_started
charge now started =
    let kept = drop_started now started in
    if ltb (length kept) max_calls_per_hour
    then (ok true, kept ++ (now ∷ []))
    else (err (Errors.rate_limited (first_or now kept + 3_600_000 - now)), kept)

abbrev busy_with : Option CallInfo → Bool
busy_with none = false
busy_with (some c) = not (same_state c.state ended)

-- `start` up to the request to the page
unfoldable pub start : Env → CallService → Result Bool × CallService
unfolding current charge
start env s =
    if busy_with (current s)
    then (err Errors.conflict, s)
    else if env.has_bridge
    then ((charge env.now s.started).0, record s { started = (charge env.now s.started).1 })
    else (err Errors.unavailable, s)

abbrev viewed : Env → CallService → Option Call → Result CallView
viewed env s none = err Errors.unavailable
viewed env s (some call) = ok (view env s call.info)

-- `start` behind the answer of the page, where `parseRawCall` made the given call of it
unfoldable pub call_placed : Env → Option RawCall → CallService → Result CallView × CallService
unfolding on_call
call_placed env none s = (err Errors.unavailable, s)
call_placed env (some c) s =
    let s' = on_call env (record c { outgoing = true; removed = false }) s in
    (viewed env s' (JsMap.get c.id s'.calls), s')

abbrev if_page : Env → CallInfo → Result CallInfo
if_page env c = if env.has_bridge then ok c else err Errors.unavailable

-- The guards of `accept`, `setVideo`, `reject` and `hangup`, up to the request to the page
unfoldable pub accept : Env → String → CallService → Result CallInfo
unfolding known
accept env id s = elim (known id s) [
  | err e ↦ err e
  | ok c ↦
      if c.outgoing || not (same_state c.state incoming) then err Errors.conflict else if_page env c
]

unfoldable pub set_video : Env → String → CallService → Result CallInfo
unfolding known
set_video env id s = elim (known id s) [
  | err e ↦ err e
  | ok c ↦ if same_state c.state incoming then err Errors.conflict else if_page env c
]

unfoldable pub reject : Env → String → CallService → Result CallInfo
unfolding known
reject env id s = elim (known id s) [
  | err e ↦ err e
  | ok c ↦ if same_state c.state incoming then if_page env c else err Errors.conflict
]

unfoldable pub hangup : Env → String → CallService → Result CallInfo
unfolding known
hangup env id s = elim (known id s) [ err e ↦ err e | ok c ↦ if_page env c ]

-- `startRecording` behind its `await`: the recorder has started, or it has thrown.
unfoldable pub recording_started : Env → CallInfo → Option Recorder → CallService → CallService
unfolding emit_call sync_bridge
recording_started env c none s = record s { recorder_starting = false }
recording_started env c (some r) s =
    let s1 = record s { recorder = some r } in
    let s2 = push_if c.video (peer_video_state c.peer_video) s1 in
    sync_bridge env (emit_call env c (record s2 { recorder_starting = false }))

abbrev is_recorder : Recorder → Option Recorder → Bool
is_recorder r none = false
is_recorder r (some q) = q.serial == r.serial

-- `onEnd` of a recorder
unfoldable pub on_end : Env → String → Recorder → CallService → CallService
unfolding emit_call sync_bridge
on_end env id r s =
    let s1 = if is_recorder r s.recorder then record s { recorder = none } else s in
    sync_bridge env
      (elim (JsMap.get id s1.calls) [ none ↦ s1 | some call ↦ emit_call env call.info s1 ])

-- `stopRecording`
unfoldable pub stop_recording : String → CallService → Result CallInfo × CallService
unfolding known stop_recorder
stop_recording id s = elim (known id s) [ err e ↦ (err e, s) | ok c ↦ (ok c, stop_recorder s) ]
