-- ===== src/Calls/Streams.antt =====
-- When audio and video flow: what `syncBridge` establishes, and which operations end with it.
use wa_logger.Base.{◌≡◌, ◌∙◌, sym, false, none, some, arith, inl, inr, Option-cases}
use wa_logger.Base.Eq.{string_eq}
use wa_logger.Base.JsMap
use wa_logger.Base.JsMap.{JsMap}
use wa_logger.Calls.Types.{ended, CallInfo, CallService, Env}
use wa_logger.Calls.Bridge.{
  current, want_bridge, want_video, drop_audio, drop_video, switch_audio, switch_video, sync_bridge,
  flows, stop_recorder,
}
use wa_logger.Calls.Service.{on_page_lost, lose_all}
use wa_logger.Calls.Losses.{get-on_page_lost}

-- The streams are as the current call and the clients ask for, and no client is held when no call goes on.
pub record IsSynced (s : CallService) : Type 0 where
  pub audio : s.bridge_on ≡ want_bridge s
  pub video : s.video_on ≡ want_video s
  pub no_audio : current s ≡ none → s.audio ≡ none
  pub no_video : current s ≡ none → s.video_client ≡ none
  pub over_audio : (c : CallInfo) → current s ≡ some c → c.state ≡ ended → s.audio ≡ none
  pub over_video : (c : CallInfo) → current s ≡ some c → c.state ≡ ended → s.video_client ≡ none

-- The fields that the streams depend on, apart from the clients.
abbrev SameCall : CallService → CallService → Type 0
SameCall t s = (current t ≡ current s) × (t.recorder ≡ s.recorder)

drop_audio-kept :
    (s : CallService) → SameCall (drop_audio s) s × ((drop_audio s).video_client ≡ s.video_client)
unfolding drop_audio current
drop_audio-kept s = ground arith

drop_audio-none : (s : CallService) → current s ≡ none → (drop_audio s).audio ≡ none
unfolding drop_audio
drop_audio-none s e = ground arith

drop_audio-over :
    (s : CallService) (c : CallInfo)
    → current s ≡ some c
    → c.state ≡ ended
    → (drop_audio s).audio ≡ none
unfolding drop_audio
drop_audio-over s c e h = ground arith

drop_video-kept : (s : CallService) → SameCall (drop_video s) s × ((drop_video s).audio ≡ s.audio)
unfolding drop_video current
drop_video-kept s = ground arith

drop_video-none : (s : CallService) → current s ≡ none → (drop_video s).video_client ≡ none
unfolding drop_video
drop_video-none s e = ground arith

drop_video-over :
    (s : CallService) (c : CallInfo)
    → current s ≡ some c
    → c.state ≡ ended
    → (drop_video s).video_client ≡ none
unfolding drop_video
drop_video-over s c e h = ground arith

switch_audio-kept :
    (env : Env) (s : CallService)
    → SameCall (switch_audio env s) s
      × (((switch_audio env s).audio ≡ s.audio)
          × ((switch_audio env s).video_client ≡ s.video_client))
unfolding switch_audio current
switch_audio-kept env s = ground arith

switch_audio-set : (env : Env) (s : CallService) → (switch_audio env s).bridge_on ≡ want_bridge s
unfolding switch_audio
switch_audio-set env s = ground arith

switch_video-kept :
    (env : Env) (s : CallService)
    → SameCall (switch_video env s) s
      × (((switch_video env s).audio ≡ s.audio)
          × (((switch_video env s).video_client ≡ s.video_client)
              × ((switch_video env s).bridge_on ≡ s.bridge_on)))
unfolding switch_video current
switch_video-kept env s = ground arith

switch_video-set : (env : Env) (s : CallService) → (switch_video env s).video_on ≡ want_video s
unfolding switch_video
switch_video-set env s = ground arith

want_bridge-same :
    (t s : CallService) → SameCall t s → t.audio ≡ s.audio → want_bridge t ≡ want_bridge s
unfolding want_bridge
want_bridge-same t s h a = ground (arith, h.0, h.1)

want_video-same :
    (t s : CallService)
    → SameCall t s
    → t.video_client ≡ s.video_client
    → want_video t ≡ want_video s
unfolding want_video
want_video-same t s h a = ground (arith, h.0, h.1)

pub sync_bridge-IsSynced : (env : Env) (s : CallService) → IsSynced (sync_bridge env s)
unfolding sync_bridge
sync_bridge-IsSynced env s =
    let a = drop_audio s in
    let b = drop_video a in
    let c = switch_audio env b in
    let d = switch_video env c in
    let (ab, a2) = drop_audio-kept s in
    let (bb, b2) = drop_video-kept a in
    let (cb, c2) = switch_audio-kept env b in
    let (db, d2) = switch_video-kept env c in
    let cur : current d ≡ current s = db.0 ∙ cb.0 ∙ bb.0 ∙ ab.0 in
    let aud : d.audio ≡ a.audio = d2.0 ∙ c2.0 ∙ b2 in
    let vid : d.video_client ≡ b.video_client = d2.1.0 ∙ c2.1 in
    let cur_a : current d ≡ current a = db.0 ∙ cb.0 ∙ bb.0 in
    record {
      audio =
          d2.1.1
          ∙ switch_audio-set env b
          ∙ sym (want_bridge-same d b (db.0 ∙ cb.0, db.1 ∙ cb.1) (d2.0 ∙ c2.0));
      video = switch_video-set env c ∙ sym (want_video-same d c db d2.1.0);
      no_audio = λ e. aud ∙ drop_audio-none s (sym cur ∙ e);
      no_video = λ e. vid ∙ drop_video-none a (sym cur_a ∙ e);
      over_audio = λ i e h. aud ∙ drop_audio-over s i (sym cur ∙ e) h;
      over_video = λ i e h. vid ∙ drop_video-over a i (sym cur_a ∙ e) h;
    }

-- A synced service sends no audio and takes none when there is no call that is being placed or connected.
pub IsSynced-quiet :
    (s : CallService)
    → IsSynced s
    → ((c : CallInfo) → current s ≡ some c → flows c ≡ false)
    → (s.bridge_on ≡ false) × (s.video_on ≡ false)
unfolding want_bridge want_video
IsSynced-quiet s h q = elim (Option-cases (current s)) [
  | inl e ↦ (ground (arith, h.audio, e), ground (arith, h.video, e))
  | inr (c, e) ↦ (ground (arith, h.audio, e, q c e), ground (arith, h.video, e, q c e))
]

abbrev Quiet : CallService → Type 0
Quiet s =
    ((s.bridge_on ≡ false) × (s.video_on ≡ false)) × ((s.audio ≡ none) × (s.video_client ≡ none))

Quiet-when_over :
    (s : CallService)
    → IsSynced s
    → ((c : CallInfo) → current s ≡ some c → c.state ≡ ended)
    → Quiet s
Quiet-when_over s h q = (
  IsSynced-quiet s h (λ c e. ground (arith, q c e)),
  elim (Option-cases (current s)) [
    | inl e ↦ (h.no_audio e, h.no_video e)
    | inr (c, e) ↦ (h.over_audio c e (q c e), h.over_video c e (q c e))
  ],
)

current_ended :
    (env : Env) (s : CallService) (c : CallInfo)
    → JsMap.IsUnique s.calls
    → current (on_page_lost env s) ≡ some c
    → c.state ≡ ended
unfolding current
current_ended env s c u e = elim (Option-cases (on_page_lost env s).current_id) [
  | inl n ↦ ground (arith, n, e)
  | inr (id, n) ↦ elim (Option-cases (JsMap.get id s.calls)) [
    | inl g ↦ ground (arith, n, e, get-on_page_lost env s id u, g)
    | inr (call, g) ↦ ground (arith, n, e, get-on_page_lost env s id u, g)
  ]
]

-- When the page is lost, both streams are switched off and both clients are let go.
pub on_page_lost-Quiet :
    (env : Env) (s : CallService)
    → JsMap.IsUnique s.calls
    → ((on_page_lost env s).bridge_on ≡ false)
      × ((on_page_lost env s).video_on ≡ false)
      × ((on_page_lost env s).audio ≡ none)
      × ((on_page_lost env s).video_client ≡ none)
unfolding on_page_lost
on_page_lost-Quiet env s u =
    let q =
      Quiet-when_over (on_page_lost env s)
        (sync_bridge-IsSynced env (lose_all env s.calls (stop_recorder s)))
        (λ c e. current_ended env s c u e) in
    (q.0.0, q.0.1, q.1.0, q.1.1)
