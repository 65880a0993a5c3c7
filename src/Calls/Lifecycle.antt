-- ===== src/Calls/Lifecycle.antt =====
-- What becomes of a call: the fields that agree with its state, and how it may go on.
use wa_logger.Base.{
  String, ◌≡◌, refl, ◌∙◌, ◌⊎◌, inl, inr, Bool, true, false, some, arith, if◌then◌else◌, is_some,
  ◌&&◌, not, Bool-cases,
}
use wa_logger.Base.Eq.{string_eq}
use wa_logger.Base.JsMap
use wa_logger.Base.JsMap.{JsMap}
use wa_logger.Calls.Types.{
  active, ended, Mapped, RawCall, CallInfo, Call, CallService, Env, same_state, live,
}
use wa_logger.Calls.Bridge.{
  emit_call, drop_audio, drop_video, switch_audio, switch_video, sync_bridge, stop_recorder,
}
use wa_logger.Calls.Service.{
  next_state, unchanged, noted, updated, note_peer_video, start_recording, after_end, update,
}

-- The fields of a call that go with its state.
pub record IsCall (info : CallInfo) : Type 0 where
  pub connected : is_some info.connected_at ≡ true → (info.state ≡ active) ⊎ (info.state ≡ ended)
  pub active_since : info.state ≡ active → is_some info.connected_at ≡ true
  pub reason : is_some info.end_reason ≡ not (live info.state)
  pub end_time : is_some info.ended_at ≡ not (live info.state)

-- How a call may go on.
pub record Follows (a b : CallInfo) : Type 0 where
  pub id : b.id ≡ a.id
  pub direction : b.outgoing ≡ a.outgoing
  pub started : b.started_at ≡ a.started_at
  pub video : a.video ≡ true → b.video ≡ true
  pub connected : is_some a.connected_at ≡ true → b.connected_at ≡ a.connected_at
  pub terminal : a.state ≡ ended → b ≡ a

pub Follows-refl : (a : CallInfo) → Follows a a
Follows-refl a = record {
  id = refl;
  direction = refl;
  started = refl;
  video = λ h. h;
  connected = λ h. refl;
  terminal = λ h. refl;
}

pub updated-IsCall :
    (env : Env) (c : RawCall) (m : Mapped) (info : CallInfo)
    → (is_some info.connected_at ≡ true → (info.state ≡ active) ⊎ (info.state ≡ ended))
    → is_some info.end_reason ≡ false
    → is_some info.ended_at ≡ false
    → IsCall (updated env c m (next_state m info) info)
unfolding updated next_state
updated-IsCall env c m info h r e = record {
  connected = λ k. ground arith;
  active_since = λ k. ground arith;
  reason = ground arith;
  end_time = ground arith;
}

updated-Follows :
    (env : Env) (c : RawCall) (m : Mapped) (info : CallInfo)
    → live info.state ≡ true
    → Follows info (updated env c m (next_state m info) info)
unfolding updated
updated-Follows env c m info l = record {
  id = ground arith;
  direction = ground arith;
  started = ground arith;
  video = λ h. ground arith;
  connected = λ h. ground arith;
  terminal = λ h. ground arith;
}

-- What leaves the calls, and which of them is current, alone.
abbrev pub SameCalls : CallService → CallService → Type 0
SameCalls t s = (t.calls ≡ s.calls) × (t.current_id ≡ s.current_id)

drop_audio_same : (s : CallService) → SameCalls (drop_audio s) s
unfolding drop_audio
drop_audio_same s = ground arith

drop_video_same : (s : CallService) → SameCalls (drop_video s) s
unfolding drop_video
drop_video_same s = ground arith

switch_audio_same : (env : Env) (s : CallService) → SameCalls (switch_audio env s) s
unfolding switch_audio
switch_audio_same env s = ground arith

switch_video_same : (env : Env) (s : CallService) → SameCalls (switch_video env s) s
unfolding switch_video
switch_video_same env s = ground arith

pub sync_bridge_same : (env : Env) (s : CallService) → SameCalls (sync_bridge env s) s
unfolding sync_bridge
sync_bridge_same env s =
    let a = drop_audio s in
    let b = drop_video a in
    let c = switch_audio env b in
    (
      (switch_video_same env c).0
          ∙ (switch_audio_same env b).0
          ∙ (drop_video_same a).0
          ∙ (drop_audio_same s).0,
      (switch_video_same env c).1
          ∙ (switch_audio_same env b).1
          ∙ (drop_video_same a).1
          ∙ (drop_audio_same s).1,
    )

pub emit_call_same :
    (env : Env) (info : CallInfo) (s : CallService) → SameCalls (emit_call env info s) s
unfolding emit_call
emit_call_same env info s = (refl, refl)

pub stop_recorder_same : (s : CallService) → SameCalls (stop_recorder s) s
unfolding stop_recorder
stop_recorder_same s = ground arith

note_peer_video_same : (info : CallInfo) (s : CallService) → SameCalls (note_peer_video info s) s
unfolding note_peer_video
note_peer_video_same info s = ground arith

start_recording_same :
    (env : Env) (id : String) (auto : Bool) (s : CallService)
    → SameCalls (start_recording env id auto s).1 s
unfolding start_recording
start_recording_same env id auto s = ground arith

calls-after_end : (id : String) (s : CallService) → (after_end id s).calls ≡ s.calls
unfolding after_end
calls-after_end id s = ground (
  arith,
  (stop_recorder_same (record s { last_peer_video = JsMap.delete id s.last_peer_video })).0,
)

pub noted_same :
    (env : Env) (c : RawCall) (m : Mapped) (call : Call) (s : CallService)
    → SameCalls (noted env c m call s) (record s {
      calls =
          JsMap.set c.id
            (record { info = updated env c m (next_state m call.info) call.info; mapped = m })
            s.calls;
    })
unfolding noted
noted_same env c m call s =
    let info = updated env c m (next_state m call.info) call.info in
    let s1 = record s { calls = JsMap.set c.id (record { info = info; mapped = m }) s.calls } in
    let s2 = note_peer_video info s1 in
    elim (Bool-cases (
      (same_state (next_state m call.info) active && not (is_some call.info.connected_at))
      && env.record_calls)) [
        | inl rec ↦ rw rec (
          (start_recording_same env info.id true s2).0 ∙ (note_peer_video_same info s1).0,
          (start_recording_same env info.id true s2).1 ∙ (note_peer_video_same info s1).1,
        )
        | inr not_rec ↦ rw not_rec (note_peer_video_same info s1)
      ]

-- The call as `update` leaves it.
abbrev pub stored : Env → RawCall → Mapped → Bool → Call → Call
stored env c m created call =
    if unchanged c m created call.info
    then record call { mapped = m }
    else record { info = updated env c m (next_state m call.info) call.info; mapped = m }

ended_calls :
    (id : String) (b : Bool) (s : CallService) → (if b then after_end id s else s).calls ≡ s.calls
ended_calls id true s = calls-after_end id s
ended_calls id false s = refl

pub calls-update :
    (env : Env) (c : RawCall) (m : Mapped) (created : Bool) (call : Call) (s : CallService)
    → (update env c m created call s).calls ≡ JsMap.set c.id (stored env c m created call) s.calls
unfolding update
calls-update env c m created call s = elim (Bool-cases (unchanged c m created call.info)) [
  | inl u ↦ rw u
  | inr n ↦
      let next = next_state m call.info in
      let s1 = noted env c m call s in
      let s2 = if same_state next ended then after_end c.id s1 else s1 in
      rw n (
        (sync_bridge_same env (emit_call env (updated env c m next call.info) s2)).0
        ∙ (emit_call_same env (updated env c m next call.info) s2).0
        ∙ ended_calls c.id (same_state next ended) s1
        ∙ (noted_same env c m call s).0)
]

-- Every call stands under its own id and is as its state says.
pub record IsSound (calls : JsMap String Call) : Type 0 where
  pub unique : JsMap.IsUnique calls
  pub call : (k : String) (v : Call) → JsMap.get k calls ≡ some v → IsCall v.info
  pub key : (k : String) (v : Call) → JsMap.get k calls ≡ some v → v.info.id ≡ k

pub stored-IsCall :
    (env : Env) (c : RawCall) (m : Mapped) (call : Call)
    → live call.info.state ≡ true
    → IsCall call.info
    → IsCall (stored env c m false call).info
stored-IsCall env c m call l w = elim (Bool-cases (unchanged c m false call.info)) [
  | inl u ↦ rw u w
  | inr n ↦ rw n (updated-IsCall env c m call.info w.connected (ground arith) (ground arith))
]

pub stored-Follows :
    (env : Env) (c : RawCall) (m : Mapped) (created : Bool) (call : Call)
    → live call.info.state ≡ true
    → Follows call.info (stored env c m created call).info
stored-Follows env c m created call l = elim (Bool-cases (unchanged c m created call.info)) [
  | inl u ↦ rw u (Follows-refl call.info)
  | inr n ↦ rw n (updated-Follows env c m call.info l)
]
