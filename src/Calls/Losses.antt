-- ===== src/Calls/Losses.antt =====
-- What the end of the page does to the calls: `onPageLost`, and the timer that forgets an ended call.
use wa_logger.Base.{
  ℕ, String, ◌≡◌, refl, ◌∙◌, ap, inl, inr, Option, none, some, [], ◌∷◌, arith, if◌then◌else◌,
  Bool-cases, is_some,
}
use mathlib.Core.Option
use wa_logger.Base.Eq.{string_eq}
use wa_logger.Base.JsMap
use wa_logger.Base.JsMap.{JsMap}
use wa_logger.Calls.Types.{ended, completed, failed, Call, CallService, Env, same_state}
use wa_logger.Calls.Bridge.{emit_call, stop_recorder}
use wa_logger.Calls.Service.{lost, lose_all, on_page_lost}
use wa_logger.Calls.Lifecycle.{sync_bridge_same, stop_recorder_same}

-- One call after the page is lost: ended now, completed when it has connected and failed when it has not.
abbrev pub gone : ℕ → Call → Call
gone now call = if same_state call.info.state ended then call else record call {
  info = record call.info {
    state = ended;
    ended_at = some now;
    end_reason = some (if is_some call.info.connected_at then completed else failed);
  };
}

-- The calls that the loop leaves.
abbrev lose_calls : ℕ → JsMap String Call → JsMap String Call → JsMap String Call
lose_calls now [] m = m
lose_calls now ((k, call) ∷ rest) m =
    lose_calls now rest
      (if same_state call.info.state ended then m else JsMap.set k (gone now call) m)

calls-lose_all :
    (env : Env) (rest : JsMap String Call) (s : CallService)
    → (lose_all env rest s).calls ≡ lose_calls env.now rest s.calls
unfolding lose_all emit_call
calls-lose_all env [] s = refl
calls-lose_all env ((k, call) ∷ rest) s = elim (Bool-cases (same_state call.info.state ended)) [
  | inl over ↦ rw (lose_all, over) (calls-lose_all env rest s)
  | inr going ↦
      rw (lose_all, going)
        (calls-lose_all env rest (
          emit_call env (lost env.now call.info) (record s {
            calls = JsMap.set k (record call { info = lost env.now call.info }) s.calls;
          })))
]

abbrev found : ℕ → Option Call → Option Call → Option Call
found now none there = there
found now (some call) there =
    if same_state call.info.state ended then there else some (gone now call)

get-lose_calls :
    (now : ℕ) (rest m : JsMap String Call) (j : String)
    → JsMap.IsUnique rest
    → JsMap.get j (lose_calls now rest m) ≡ found now (JsMap.get j rest) (JsMap.get j m)
unfolding JsMap.get
get-lose_calls now [] m j u = refl
get-lose_calls now ((k, call) ∷ rest) m j u =
    let m' = if same_state call.info.state ended then m else JsMap.set k (gone now call) m in
    ground (
      arith,
      get-lose_calls now rest m' j u.1,
      JsMap.get-set k j (gone now call) m,
      string_eq.beq_iff k j,
    )

found_self : (now : ℕ) (o : Option Call) → found now o o ≡ Option.map (gone now) o
found_self now none = refl
found_self now (some call) = ground arith

-- After the page is lost the service knows the calls that it knew, each of them over: one that had
-- ended is as it was, any other ends now, completed if it had connected and failed if it had not.
pub get-on_page_lost :
    (env : Env) (s : CallService) (j : String)
    → JsMap.IsUnique s.calls
    → JsMap.get j (on_page_lost env s).calls ≡ Option.map (gone env.now) (JsMap.get j s.calls)
unfolding on_page_lost
get-on_page_lost env s j u =
    let start = stop_recorder s in
    let e =
      (sync_bridge_same env (lose_all env s.calls start)).0
      ∙ calls-lose_all env s.calls start
      ∙ ap (lose_calls env.now s.calls) (stop_recorder_same s).0 in
    ap (JsMap.get j) e
    ∙ get-lose_calls env.now s.calls s.calls j u
    ∙ found_self env.now (JsMap.get j s.calls)
