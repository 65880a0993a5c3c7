-- ===== src/Supervisor/Model.antt =====
-- The state of `Supervisor` and what changes it: requests of the gateway, processes that exit, and timers.
-- A `Worker` object outlives its entry in the map, so objects are kept in a store, by a number.
use wa_logger.Base.{
  ℕ, ◌+◌, ◌-◌, ◌*◌, ◌^◌, min, Bool, true, false, Option, none, some, List, [], ◌∷◌, ◌++◌,
  if◌then◌else◌, is_some, ◌&&◌, ◌||◌, not, ltb, leb, ◌==◌,
}
use wa_logger.Base.Eq.{nat_eq}
use wa_logger.Base.JsMap
use wa_logger.Base.JsMap.{JsMap}

-- A process is named by a number. The timer holds the delay that it was set with.
pub record Worker : Type 0 where
  pub id : ℕ
  pub token : ℕ
  pub proc : Option ℕ
  pub desired : Bool
  pub restarts : ℕ
  pub started_at : ℕ
  pub timer : Option ℕ

pub record Front : Type 0 where
  pub proc : Option ℕ
  pub desired : Bool
  pub restarts : ℕ
  pub started_at : ℕ
  pub timer : Option ℕ

-- What is done to the outside. A request that is turned down is `refused`.
pub data Action : Type 0 where
  prepared : ℕ → Action
  spawned : ℕ → ℕ → ℕ → Action
  spawned_front : ℕ → Action
  terminated : ℕ → Action
  refused : ℕ → Action
  closed_control : Action

pub record SupervisorConfig : Type 0 where
  pub legacy_uid : ℕ
  pub uid_base : ℕ

pub record Supervisor : Type 0 where
  pub workers : JsMap ℕ ℕ
  pub objects : JsMap ℕ Worker
  pub next : ℕ
  pub front : Front
  pub shutting_down : Bool
  pub out : List Action

-- `MIN_TENANT`
abbrev pub min_tenant : ℕ
min_tenant = 1

-- `MAX_TENANT`
abbrev pub max_tenant : ℕ
max_tenant = 9_999

-- `validTenant`, for a number that is an integer
unfoldable pub valid_tenant : ℕ → Bool
valid_tenant n = leb min_tenant n && leb n max_tenant

-- `uidFor`
unfoldable pub uid_for : SupervisorConfig → ℕ → ℕ
uid_for cfg id = if id == 1 then cfg.legacy_uid else cfg.uid_base + id

abbrev tell : Action → Supervisor → Supervisor
tell a s = record s { out = s.out ++ (a ∷ []) }

abbrev store : ℕ → Worker → Supervisor → Supervisor
store r w s = record s { objects = JsMap.set r w s.objects }

-- The delay before a restart.
unfoldable pub restart_delay : ℕ → ℕ
restart_delay restarts = min (1000 * 2 ^ min restarts 5) 30_000

-- The restarts that are counted after a process has exited.
unfoldable pub counted : ℕ → ℕ → ℕ → ℕ
counted now started_at restarts = if ltb 60_000 (now - started_at) then 0 else restarts + 1

-- `startWorker`, where the new process gets the given number
unfoldable pub start_worker : SupervisorConfig → ℕ → Worker → ℕ → ℕ → Supervisor → Supervisor
unfolding uid_for
start_worker cfg r w now pid s = tell (spawned w.id (uid_for cfg w.id) pid) (
    tell (prepared w.id) (store r (record w { timer = none; proc = some pid; started_at = now }) s))

abbrev is_proc : ℕ → Option ℕ → Bool
is_proc p none = false
is_proc p (some q) = q == p

-- The object after its process `p` has exited.
unfoldable pub worker_exited : Bool → ℕ → ℕ → Worker → Worker
unfolding counted restart_delay
worker_exited shutting_down p now w =
    if is_proc p w.proc
    then (if not w.desired || shutting_down then record w { proc = none } else record w {
      proc = none;
      restarts = counted now w.started_at w.restarts;
      timer = some (restart_delay (counted now w.started_at w.restarts));
    })
    else w

-- The listener of `exit` in `startWorker`
unfoldable pub on_exit : ℕ → ℕ → ℕ → Supervisor → Supervisor
unfolding worker_exited
on_exit r p now s = elim (JsMap.get r s.objects) [
  | none ↦ s
  | some w ↦ store r (worker_exited s.shutting_down p now w) s
]

-- The timer of an object, when it is still set.
unfoldable pub on_timer : SupervisorConfig → ℕ → ℕ → ℕ → Supervisor → Supervisor
unfolding start_worker
on_timer cfg r now pid s = elim (JsMap.get r s.objects) [
  | none ↦ s
  | some w ↦ if is_some w.timer then start_worker cfg r w now pid s else s
]

abbrev new_worker : ℕ → ℕ → Worker
new_worker id token = record {
  id = id;
  token = token;
  proc = none;
  desired = true;
  restarts = 0;
  started_at = 0;
  timer = none;
}

-- `ensureWorker` from the object on; `gone` tells whether its process has an exit code.
unfoldable pub want_worker : SupervisorConfig → ℕ → Worker → Bool → ℕ → ℕ → Supervisor → Supervisor
unfolding start_worker
want_worker cfg r w gone now pid s =
    let w' = record w { desired = true } in
    if not (is_some w.proc) || gone then start_worker cfg r w' now pid s else store r w' s

-- `ensureWorker` up to the wait for the socket
unfoldable pub ensure_worker : SupervisorConfig → ℕ → ℕ → Bool → ℕ → ℕ → Supervisor → Supervisor
unfolding want_worker
ensure_worker cfg id token gone now pid s =
    if s.shutting_down then tell (refused id) s else elim (JsMap.get id s.workers) [
      | none ↦
          want_worker cfg s.next (new_worker id token) gone now pid
            (record s { workers = JsMap.set id s.next s.workers; next = s.next + 1 })
      | some r ↦ elim (JsMap.get r s.objects) [
        | none ↦ s
        | some w ↦ want_worker cfg r w gone now pid s
      ]
    ]

-- The end of `stopWorker`
unfoldable pub stopped : ℕ → Supervisor → Supervisor
stopped r s = elim (JsMap.get r s.objects) [
  | none ↦ s
  | some w ↦ store r (record w { proc = none }) s
]

abbrev term : Bool → Option ℕ → Supervisor → Supervisor
term gone none s = s
term gone (some p) s = if gone then s else tell (terminated p) s

-- `stopWorker` up to the wait for the exit of the process
unfoldable pub stop_worker : ℕ → Bool → Supervisor → Supervisor
stop_worker id gone s = elim (JsMap.get id s.workers) [
  | none ↦ s
  | some r ↦ elim (JsMap.get r s.objects) [
    | none ↦ s
    | some w ↦ term gone w.proc (store r (record w { desired = false; timer = none }) s)
  ]
]

-- `removeTenant` up to the stop of the worker, and behind it up to the removal of the browser
unfoldable pub remove_tenant : ℕ → Bool → Supervisor → Supervisor
unfolding stop_worker
remove_tenant id gone s = if id == 1 then tell (refused id) s else stop_worker id gone s

unfoldable pub forget_tenant : ℕ → Supervisor → Supervisor
forget_tenant id s = record s { workers = JsMap.delete id s.workers }

-- `startFront`
unfoldable pub start_front : ℕ → ℕ → Supervisor → Supervisor
start_front now pid s =
    tell (spawned_front pid)
      (record s { front = record s.front { desired = true; proc = some pid; started_at = now } })

-- The listener of `exit` in `startFront`
unfoldable pub on_front_exit : ℕ → ℕ → Supervisor → Supervisor
unfolding counted restart_delay
on_front_exit p now s =
    let f = s.front in
    if is_proc p f.proc
    then (if not f.desired || s.shutting_down
        then record s { front = record f { proc = none } }
        else record s {
          front = record f {
            proc = none;
            restarts = counted now f.started_at f.restarts;
            timer = some (restart_delay (counted now f.started_at f.restarts));
          };
        })
    else s

-- A timer that has fired is kept as none.
unfoldable pub on_front_timer : ℕ → ℕ → Supervisor → Supervisor
unfolding start_front
on_front_timer now pid s =
    if is_some s.front.timer
    then start_front now pid (record s { front = record s.front { timer = none } })
    else s

-- `shutdown` up to the wait for the gateway
unfoldable pub shutdown : Bool → Supervisor → Supervisor
shutdown gone s =
    if s.shutting_down
    then s
    else term gone s.front.proc (
        tell closed_control (record s {
          shutting_down = true;
          front = record s.front { desired = false; timer = none };
        }))

pub data Event : Type 0 where
  ensure : ℕ → ℕ → Bool → ℕ → ℕ → Event
  exit : ℕ → ℕ → ℕ → Event
  timer : ℕ → ℕ → ℕ → Event
  stop : ℕ → Bool → Event
  stop_end : ℕ → Event
  remove : ℕ → Bool → Event
  forget : ℕ → Event
  front_exit : ℕ → ℕ → Event
  front_timer : ℕ → ℕ → Event
  shut : Bool → Event

unfoldable pub step : SupervisorConfig → Event → Supervisor → Supervisor
unfolding ensure_worker on_exit on_timer stop_worker stopped remove_tenant forget_tenant
    on_front_exit on_front_timer shutdown
step cfg (ensure id token gone now pid) s = ensure_worker cfg id token gone now pid s
step cfg (exit r p now) s = on_exit r p now s
step cfg (timer r now pid) s = on_timer cfg r now pid s
step cfg (stop id gone) s = stop_worker id gone s
step cfg (stop_end r) s = stopped r s
step cfg (remove id gone) s = remove_tenant id gone s
step cfg (forget id) s = forget_tenant id s
step cfg (front_exit p now) s = on_front_exit p now s
step cfg (front_timer now pid) s = on_front_timer now pid s
step cfg (shut gone) s = shutdown gone s
