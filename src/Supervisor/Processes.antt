-- ===== src/Supervisor/Processes.antt =====
-- The process of a worker through the events of the supervisor.
use wa_logger.Base.{
  ℕ, ◌+◌, ◌≡◌, ◌∙◌, sym, Bool, true, false, none, some, is_some, ◌&&◌, ◌||◌, not, ◌==◌, ==_iff,
  arith, inl, inr, Bool-cases, Option-cases,
}
use mathlib.Core.Path.{subst}
use wa_logger.Base.Eq.{nat_eq}
use wa_logger.Base.JsMap
use wa_logger.Base.JsMap.{JsMap}
use wa_logger.Supervisor.Model.{
  Worker, SupervisorConfig, Supervisor, Event, ensure, exit, timer, stop, stop_end, remove, forget,
  front_exit, front_timer, shut, start_worker, worker_exited, on_exit, on_timer, want_worker,
  ensure_worker, stopped, stop_worker, remove_tenant, step,
}
use wa_logger.Supervisor.Workers.{
  IsSound, objects-stop_worker, front_exit_same, front_timer_same, shut_same,
}

-- Whether an event leaves the process `p` of the object `r` alone: it is not the exit of the process, nor the end of
-- a stop of the object, nor a request for the tenant of the object that finds the process gone.
abbrev pub spares : Event → ℕ → ℕ → Supervisor → Bool
spares (ensure id token gone now pid) r p s = elim (JsMap.get id s.workers) [
  | none ↦ true
  | some k ↦ not (gone && k == r)
]
spares (exit k q now) r p s = not (k == r && q == p)
spares (stop_end k) r p s = not (k == r)
spares _ r p s = true

-- The object `r` has the process `p`.
abbrev pub Runs : ℕ → ℕ → JsMap ℕ Worker → Type 0
Runs r p m = (w : Worker) × (JsMap.get r m ≡ some w) × (w.proc ≡ some p)

set-Runs :
    (k r p : ℕ) (v : Worker) (m : JsMap ℕ Worker)
    → Runs r p m
    → ((k == r) ≡ true → v.proc ≡ some p)
    → Runs r p (JsMap.set k v m)
set-Runs k r p v m (w, e, q) h = elim (Bool-cases (k == r)) [
  | inl same ↦ (v, JsMap.get-set k r v m ∙ rw same, h same)
  | inr other ↦ (w, JsMap.get-set k r v m ∙ rw (other, e), q)
]

-- The object that runs `p` is the one that stands under its number.
held :
    (k r p : ℕ) (v : Worker) (m : JsMap ℕ Worker)
    → Runs r p m
    → JsMap.get k m ≡ some v
    → (k == r) ≡ true
    → v.proc ≡ some p
held k r p v m (w, e, q) g same =
    let kr : k ≡ r = ground (arith, ==_iff k r, same) in
    let vw : v ≡ w = ground (arith, g, e, kr) in subst (λ x. x.proc ≡ some p) (sym vw) q

on_exit-Runs :
    (k q now r p : ℕ) (s : Supervisor)
    → Runs r p s.objects
    → not (k == r && q == p) ≡ true
    → Runs r p (on_exit k q now s).objects
unfolding on_exit worker_exited
on_exit-Runs k q now r p s h n = elim (Option-cases (JsMap.get k s.objects)) [
  | inl e ↦ rw (on_exit, e) h
  | inr (v, e) ↦
      rw (on_exit, e)
        (set-Runs k r p (worker_exited s.shutting_down q now v) s.objects h
          (λ same. ground (arith, held k r p v s.objects h e same, same, ==_iff q p, ==_iff p q)))
]

on_timer-Runs :
    (cfg : SupervisorConfig) (k now pid r p : ℕ) (s : Supervisor)
    → IsSound s
    → Runs r p s.objects
    → Runs r p (on_timer cfg k now pid s).objects
unfolding on_timer start_worker
on_timer-Runs cfg k now pid r p s sound h = elim (Option-cases (JsMap.get k s.objects)) [
  | inl e ↦ rw (on_timer, e) h
  | inr (v, e) ↦ elim (Bool-cases (is_some v.timer)) [
    | inr clear ↦ rw (on_timer, e, clear) h
    | inl set ↦
        rw (on_timer, e, set)
          (set-Runs k r p (record v { timer = none; proc = some pid; started_at = now }) s.objects h
            (λ same.
              absurd
                (ground (arith, held k r p v s.objects h e same, (sound.tidy k v e).no_proc set))))
  ]
]

want_worker-Runs :
    (cfg : SupervisorConfig) (k : ℕ) (v : Worker) (gone : Bool) (now pid r p : ℕ) (s : Supervisor)
    → Runs r p s.objects
    → ((k == r) ≡ true → (v.proc ≡ some p) × (gone ≡ false))
    → Runs r p (want_worker cfg k v gone now pid s).objects
unfolding want_worker start_worker
want_worker-Runs cfg k v gone now pid r p s h q = elim (Bool-cases (not (is_some v.proc) || gone)) [
  | inr runs ↦
      rw (want_worker, runs)
        (set-Runs k r p (record v { desired = true }) s.objects h (λ same. (q same).0))
  | inl idle ↦
      rw (want_worker, idle)
        (set-Runs k r p
          (record v { desired = true; timer = none; proc = some pid; started_at = now }) s.objects h
          (λ same. absurd (ground (arith, (q same).0, (q same).1, idle))))
]

ensure_worker-Runs :
    (cfg : SupervisorConfig) (id token : ℕ) (gone : Bool) (now pid r p : ℕ) (s : Supervisor)
    → IsSound s
    → Runs r p s.objects
    → spares (ensure id token gone now pid) r p s ≡ true
    → Runs r p (ensure_worker cfg id token gone now pid s).objects
unfolding ensure_worker
ensure_worker-Runs cfg id token gone now pid r p s sound h n = elim (Bool-cases s.shutting_down) [
  | inl down ↦ rw (ensure_worker, down) h
  | inr up ↦ elim (Option-cases (JsMap.get id s.workers)) [
    | inr (k, e) ↦ elim (Option-cases (JsMap.get k s.objects)) [
      | inl g ↦ rw (ensure_worker, up, e, g) h
      | inr (v, g) ↦
          rw (ensure_worker, up, e, g)
            (want_worker-Runs cfg k v gone now pid r p s h
              (λ same. (held k r p v s.objects h g same, ground (arith, n, e, same))))
    ]
    | inl e ↦
        rw (ensure_worker, up, e)
          (want_worker-Runs cfg s.next
            (record {
              id = id;
              token = token;
              proc = none;
              desired = true;
              restarts = 0;
              started_at = 0;
              timer = none;
            })
            gone now pid r p
            (record s { workers = JsMap.set id s.next s.workers; next = s.next + 1 }) h
            (λ same.
              absurd (ground (arith, same, ==_iff s.next r, sound.free s.next (omega arith), h))))
  ]
]

stop_worker-Runs :
    (id : ℕ) (gone : Bool) (r p : ℕ) (s : Supervisor)
    → Runs r p s.objects
    → Runs r p (stop_worker id gone s).objects
stop_worker-Runs id gone r p s h = elim (objects-stop_worker id gone s) [
  | inl o ↦ subst (Runs r p) (sym o) h
  | inr (k, v, g, o) ↦ subst (Runs r p) (sym o) (
      set-Runs k r p (record v { desired = false; timer = none }) s.objects h
        (held k r p v s.objects h g))
]

stopped-Runs :
    (k r p : ℕ) (s : Supervisor)
    → Runs r p s.objects
    → not (k == r) ≡ true
    → Runs r p (stopped k s).objects
unfolding stopped
stopped-Runs k r p s h n = elim (Option-cases (JsMap.get k s.objects)) [
  | inl e ↦ rw (stopped, e) h
  | inr (v, e) ↦
      rw (stopped, e)
        (set-Runs k r p (record v { proc = none }) s.objects h
          (λ same. absurd (ground (arith, same, n))))
]

remove_tenant-Runs :
    (id : ℕ) (gone : Bool) (r p : ℕ) (s : Supervisor)
    → Runs r p s.objects
    → Runs r p (remove_tenant id gone s).objects
unfolding remove_tenant
remove_tenant-Runs id gone r p s h = elim (Bool-cases (id == 1)) [
  | inl first ↦ rw (remove_tenant, first) h
  | inr other ↦ rw (remove_tenant, other) (stop_worker-Runs id gone r p s h)
]

-- Whatever happens, a process that runs for a worker object stays the process of that object (also when the tenant
-- was forgotten), so that no second one is started for it, until the process exits, a stop of the object has
-- ended, or a request for the tenant of the object finds the process gone.
pub step-Runs :
    (cfg : SupervisorConfig) (e : Event) (r p : ℕ) (s : Supervisor)
    → IsSound s
    → Runs r p s.objects
    → spares e r p s ≡ true
    → Runs r p (step cfg e s).objects
unfolding step
step-Runs cfg (ensure id token gone now pid) r p s sound h n =
    ensure_worker-Runs cfg id token gone now pid r p s sound h n
step-Runs cfg (exit k q now) r p s sound h n = on_exit-Runs k q now r p s h n
step-Runs cfg (timer k now pid) r p s sound h n = on_timer-Runs cfg k now pid r p s sound h
step-Runs cfg (stop id gone) r p s sound h n = stop_worker-Runs id gone r p s h
step-Runs cfg (stop_end k) r p s sound h n = stopped-Runs k r p s h n
step-Runs cfg (remove id gone) r p s sound h n = remove_tenant-Runs id gone r p s h
step-Runs cfg (forget id) r p s sound h n = h
step-Runs cfg (front_exit q now) r p s sound h n =
    subst (Runs r p) (sym (front_exit_same cfg q now s).0) h
step-Runs cfg (front_timer now pid) r p s sound h n =
    subst (Runs r p) (sym (front_timer_same cfg now pid s).0) h
step-Runs cfg (shut gone) r p s sound h n = subst (Runs r p) (sym (shut_same cfg gone s).0) h
