-- ===== src/Calls/Types.antt =====
-- The data of server/src/wa/calls.ts: what the page reports, what is kept of a call, and the state of
-- the call service. What the service does to the outside is appended to `out`.
use wa_logger.Base.{
  ℕ, String, Bool, true, false, Option, none, some, List, ◌==◌, if◌then◌else◌, is_some, ◌||◌, not,
}
use wa_logger.Base.Eq.{string_eq}
use wa_logger.Base.JsMap.{JsMap}

pub data CallState : Type 0 where
  incoming calling ringing connecting active ended : CallState

pub data Mapped : Type 0 where
  state : CallState → Mapped
  elsewhere : Mapped

pub data CallEndReason : Type 0 where
  elsewhere busy completed missed declined canceled unavailable failed : CallEndReason

-- `RawCall` of server/src/wa/callbridge.ts. An empty `failedReason` counts as none.
pub record RawCall : Type 0 where
  pub id : String
  pub state : Option ℕ
  pub outgoing : Bool
  pub is_video : Bool
  pub is_group : Bool
  pub peer : Option String
  pub peer_alt : Option String
  pub group : Option String
  pub peer_busy : Bool
  pub failed_reason : Option String
  pub log_result : Option ℕ
  pub ever_connected : Bool
  pub user_ended : Bool
  pub self_video : Bool
  pub peer_video : Bool
  pub removed : Bool

-- `CallInfo` without the four fields that `view` puts in from the service.
pub record CallInfo : Type 0 where
  pub id : String
  pub outgoing : Bool
  pub state : CallState
  pub video : Bool
  pub self_video : Bool
  pub peer_video : Bool
  pub group : Bool
  pub chat_id : Option String
  pub started_at : ℕ
  pub connected_at : Option ℕ
  pub ended_at : Option ℕ
  pub end_reason : Option CallEndReason

pub record CallView : Type 0 where
  pub info : CallInfo
  pub audio : Bool
  pub video_client : Bool
  pub recording : Bool
  pub recording_blocked : Bool

pub record Call : Type 0 where
  pub info : CallInfo
  pub mapped : Mapped

-- A `CallRecorder`: which one it is, and whether it is `ending`.
pub record Recorder : Type 0 where
  pub serial : ℕ
  pub ending : Bool

pub data Effect : Type 0 where
  emitted : CallView → Effect
  closed_audio : ℕ → ℕ → Effect
  closed_video : ℕ → ℕ → Effect
  set_bridge : Bool → Effect
  set_video_bridge : Bool → Effect
  peer_video_state : Bool → Effect
  stopped_recorder : Effect
  started_recorder : String → Bool → Effect
  linger : String → Effect
  key_frame : Effect
  client_key_frame : ℕ → Effect
  sent_audio : ℕ → Effect
  recorded_peer : Effect
  recorded_own : Effect
  page_audio : Effect
  sent_video : ℕ → Effect
  page_video : Effect

-- The private fields of `CallService`. A client is named by a number.
pub record CallService : Type 0 where
  pub calls : JsMap String Call
  pub current_id : Option String
  pub audio : Option ℕ
  pub bridge_on : Bool
  pub video_client : Option ℕ
  pub video_on : Bool
  pub last_peer_key_request : ℕ
  pub started : List ℕ
  pub last_peer_video : JsMap String Bool
  pub peers : JsMap String (List String)
  pub recorder : Option Recorder
  pub recorder_starting : Bool
  pub out : List Effect

-- What the service asks of the rest of the program while it handles one event: the clock, the chats
-- that are logged, the block list (wa/blocklist.ts), the settings, and whether the page is there.
pub record Env : Type 0 where
  pub now : ℕ
  pub has_chat : String → Bool
  pub blocks_active : Bool
  pub blocks : String → Bool
  pub unresolved : String → Bool
  pub record_calls : Bool
  pub has_bridge : Bool

abbrev pub same_state : CallState → CallState → Bool
same_state incoming incoming = true
same_state calling calling = true
same_state ringing ringing = true
same_state connecting connecting = true
same_state active active = true
same_state ended ended = true
same_state _ _ = false

-- `LIVE`
abbrev pub live : CallState → Bool
live ended = false
live _ = true

-- `mapCallState`
unfoldable pub map_call_state : Option ℕ → Option Mapped
map_call_state none = none
map_call_state (some n) =
    if n == 1 || n == 12 || n == 14
    then some (state calling)
    else if n == 2
    then some (state ringing)
    else if n == 3 || n == 8
    then some (state incoming)
    else if n == 4 || n == 5 || n == 9 || n == 10
    then some (state connecting)
    else if n == 6 || n == 11
    then some (state active)
    else if n == 7
    then some Mapped.elsewhere
    else if n == 0 || n == 13
    then some (state ended)
    else none

abbrev is_elsewhere : Mapped → Bool
is_elsewhere Mapped.elsewhere = true
is_elsewhere _ = false

abbrev result_is : Option ℕ → ℕ → Bool
result_is none k = false
result_is (some n) k = n == k

abbrev text_given : Option String → Bool
text_given none = false
text_given (some s) = not (string_eq.beq s "")

-- The tests of `endReason` behind the switch on the log result.
unfoldable pub unlogged_reason : RawCall → CallInfo → CallEndReason
unlogged_reason c info =
    if text_given c.failed_reason
    then failed
    else if info.outgoing
    then (if c.user_ended then canceled else unavailable)
    else if c.user_ended
    then declined
    else missed

-- `endReason`
unfoldable pub end_reason : RawCall → CallInfo → Mapped → CallEndReason
unfolding unlogged_reason
end_reason c info mapped =
    if is_elsewhere mapped || result_is c.log_result 6
    then CallEndReason.elsewhere
    else if c.peer_busy
    then busy
    else if is_some info.connected_at || c.ever_connected || result_is c.log_result 1
    then completed
    else if result_is c.log_result 2 || result_is c.log_result 7
    then missed
    else if result_is c.log_result 3
    then declined
    else if result_is c.log_result 4
    then canceled
    else if result_is c.log_result 5
    then unavailable
    else unlogged_reason c info
