-- ===== src/Supervisor/Tests.antt =====
-- Runs of the supervisor, and the theorems at concrete states.
use wa_logger.Base.{◌≡◌, refl, true, false, none, some, List, [], ◌∷◌, arith}
use wa_logger.Base.Eq.{nat_eq}
use wa_logger.Base.JsMap
use wa_logger.Supervisor.Model.{
  Worker, SupervisorConfig, Supervisor, Event, ensure, exit, timer, front_exit, front_timer,
  start_front, shutdown, step, ensure_worker, stop_worker,
}
use wa_logger.Supervisor.Workers.{IsSound, step-IsSound}
use wa_logger.Supervisor.Processes.{Runs, step-Runs}
use wa_logger.Supervisor.Endings.{Rests, run, quiet, run-stop_worker}
use wa_logger.Supervisor.Fates.{Fate}
use wa_logger.Supervisor.Shutdown.{IsDown, shutdown-IsDown}

abbrev cfg : SupervisorConfig
cfg = record { legacy_uid = 1001; uid_base = 200_000 }

abbrev nothing : Supervisor
nothing = record {
  workers = [];
  objects = [];
  next = 0;
  front = record { proc = none; desired = false; restarts = 0; started_at = 0; timer = none };
  shutting_down = false;
  out = [];
}

nothing-IsSound : IsSound nothing
unfolding JsMap.get
nothing-IsSound = record { tidy = λ r w e. absurd (ground (arith, e)); free = λ r l. refl }

-- Tenant 2 is asked for and gets process 7.
abbrev one_worker : Supervisor
one_worker = step cfg (ensure 2 11 false 100 7) nothing

one_worker-IsSound : IsSound one_worker
one_worker-IsSound = step-IsSound cfg (ensure 2 11 false 100 7) nothing nothing-IsSound

step-IsSound_example : IsSound (step cfg (exit 0 7 200) one_worker)
step-IsSound_example = step-IsSound cfg (exit 0 7 200) one_worker one_worker-IsSound

one_worker-Runs : Runs 0 7 one_worker.objects
unfolding step ensure_worker JsMap.get JsMap.set
one_worker-Runs = (
  record {
    id = 2;
    token = 11;
    proc = some 7;
    desired = true;
    restarts = 0;
    started_at = 100;
    timer = none;
  },
  refl,
  refl,
)

step-Runs_example : Runs 0 7 (step cfg (ensure 3 12 true 150 8) one_worker).objects
unfolding JsMap.get step JsMap.set
step-Runs_example =
    step-Runs cfg (ensure 3 12 true 150 8) 0 7 one_worker one_worker-IsSound one_worker-Runs refl

abbrev seven : Worker
seven = record {
  id = 2;
  token = 11;
  proc = some 7;
  desired = true;
  restarts = 0;
  started_at = 100;
  timer = none;
}

one_worker-seven : JsMap.get 0 one_worker.objects ≡ some seven
unfolding step ensure_worker JsMap.get JsMap.set
one_worker-seven = refl

one_worker-known : JsMap.get 2 one_worker.workers ≡ some 0
unfolding step ensure_worker JsMap.get JsMap.set
one_worker-known = refl

-- The process of the stopped worker exits, a timer fires, and another tenant is asked for.
abbrev behind_stop : List Event
behind_stop = exit 0 7 300 ∷ timer 0 310 9 ∷ ensure 3 12 false 320 10 ∷ []

quiet_run : quiet cfg behind_stop 0 (stop_worker 2 false one_worker) ≡ true
unfolding step ensure_worker JsMap.get JsMap.set
quiet_run = refl

run-stop_worker_example :
    Rests 0 (some 7) (run cfg behind_stop (stop_worker 2 false one_worker)).objects
run-stop_worker_example =
    run-stop_worker cfg behind_stop 2 false 0 seven one_worker one_worker-IsSound one_worker-known
      one_worker-seven quiet_run

-- The gateway and the worker of tenant 2 run.
abbrev with_front : Supervisor
with_front = start_front 50 3 one_worker

with_front_up : with_front.shutting_down ≡ false
unfolding start_front step ensure_worker JsMap.get
with_front_up = refl

abbrev behind_shutdown : List Event
behind_shutdown = front_exit 3 60 ∷ front_timer 70 4 ∷ exit 0 7 80 ∷ timer 0 90 8 ∷ []

shutdown-IsDown_example :
    IsDown with_front.front.proc with_front.next
      (run cfg behind_shutdown (shutdown false with_front))
    × Fate 0
        (JsMap.get 0 with_front.objects)
        (run cfg behind_shutdown (shutdown false with_front)).objects
shutdown-IsDown_example = shutdown-IsDown cfg false behind_shutdown 0 with_front with_front_up
