-- ===== src/Supervisor/Endings.antt =====
-- server/src/supervisor/supervisor.ts: a worker that was stopped, and what comes behind the stop.
use wa_logger.Base.{
  ℕ, ◌+◌, ◌≡◌, refl, ◌∙◌, sym, Bool, true, false, Option, none, some, List, [], ◌∷◌, is_some, ◌||◌,
  not, ◌==◌, ==_iff, arith, inl, inr, ◌⊎◌, ◌&&◌, and_left, and_right, Bool-cases, Option-cases,
}
use mathlib.Core.Path.{subst}
use wa_logger.Base.Eq.{nat_eq}
use wa_logger.Base.JsMap
use wa_logger.Base.JsMap.{JsMap}
use wa_logger.Supervisor.Model.{
  Worker, SupervisorConfig, Supervisor, Event, ensure, exit, timer, stop, stop_end, remove, forget,
  front_exit, front_timer, shut, start_worker, worker_exited, on_exit, on_timer, want_worker,
  ensure_worker, stopped, stop_worker, remove_tenant, step,
}
use wa_logger.Supervisor.Workers.{
  IsSound, step-IsSound, stop_worker-IsSound, objects-stop_worker, front_exit_same,
  front_timer_same, shut_same,
}

-- The object `r` is not wanted, waits for nothing, and has the process `p` or none.
abbrev pub Rests : ℕ → Option ℕ → JsMap ℕ Worker → Type 0
Rests r p m =
    (w : Worker) × (JsMap.get r m ≡ some w)
    × (w.desired ≡ false)
    × (w.timer ≡ none)
    × ((w.proc ≡ p) ⊎ (w.proc ≡ none))

-- A request for the tenant whose object is `r`.
abbrev pub wakes : Event → ℕ → Supervisor → Bool
wakes (ensure id token gone now pid) r s = elim (JsMap.get id s.workers) [
  | none ↦ false
  | some k ↦ k == r
]
wakes _ r s = false

-- What a new value of an object must be when the object is `r`.
abbrev Still : Option ℕ → Worker → Type 0
Still p v = (v.desired ≡ false) × (v.timer ≡ none) × ((v.proc ≡ p) ⊎ (v.proc ≡ none))

set-Rests :
    (k r : ℕ) (p : Option ℕ) (v : Worker) (m : JsMap ℕ Worker)
    → Rests r p m
    → ((k == r) ≡ true → Still p v)
    → Rests r p (JsMap.set k v m)
set-Rests k r p v m (w, e, d, t, x) h = elim (Bool-cases (k == r)) [
  | inl same ↦ let (d', t', x') = h same in (v, JsMap.get-set k r v m ∙ rw same, d', t', x')
  | inr other ↦ (w, JsMap.get-set k r v m ∙ rw (other, e), d, t, x)
]

held :
    (k r : ℕ) (p : Option ℕ) (v : Worker) (m : JsMap ℕ Worker)
    → Rests r p m
    → JsMap.get k m ≡ some v
    → (k == r) ≡ true
    → Still p v
held k r p v m (w, e, d, t, x) g same =
    let kr : k ≡ r = ground (arith, ==_iff k r, same) in
    let vw : v ≡ w = ground (arith, g, e, kr) in subst (Still p) (sym vw) (d, t, x)

worker_exited-Still :
    (down : Bool) (q now : ℕ) (p : Option ℕ) (v : Worker)
    → Still p v
    → Still p (worker_exited down q now v)
unfolding worker_exited
worker_exited-Still down q now p v (d, t, x) =
    (ground (arith, d), ground (arith, d, t), ground (arith, d, x))

on_exit-Rests :
    (k q now r : ℕ) (p : Option ℕ) (s : Supervisor)
    → Rests r p s.objects
    → Rests r p (on_exit k q now s).objects
unfolding on_exit
on_exit-Rests k q now r p s h = elim (Option-cases (JsMap.get k s.objects)) [
  | inl e ↦ rw (on_exit, e) h
  | inr (v, e) ↦
      rw (on_exit, e)
        (set-Rests k r p (worker_exited s.shutting_down q now v) s.objects h
          (λ same. worker_exited-Still s.shutting_down q now p v (held k r p v s.objects h e same)))
]

on_timer-Rests :
    (cfg : SupervisorConfig) (k now pid r : ℕ) (p : Option ℕ) (s : Supervisor)
    → Rests r p s.objects
    → Rests r p (on_timer cfg k now pid s).objects
unfolding on_timer start_worker
on_timer-Rests cfg k now pid r p s h = elim (Option-cases (JsMap.get k s.objects)) [
  | inl e ↦ rw (on_timer, e) h
  | inr (v, e) ↦ elim (Bool-cases (is_some v.timer)) [
    | inr clear ↦ rw (on_timer, e, clear) h
    | inl set ↦
        rw (on_timer, e, set)
          (set-Rests k r p (record v { timer = none; proc = some pid; started_at = now }) s.objects
            h (λ same. absurd (ground (arith, (held k r p v s.objects h e same).1, set))))
  ]
]

want_worker-Rests :
    (cfg : SupervisorConfig) (k : ℕ) (v : Worker) (gone : Bool) (now pid r : ℕ) (p : Option ℕ)
    (s : Supervisor)
    → Rests r p s.objects
    → (k == r) ≡ false
    → Rests r p (want_worker cfg k v gone now pid s).objects
unfolding want_worker start_worker
want_worker-Rests cfg k v gone now pid r p s h n =
    elim (Bool-cases (not (is_some v.proc) || gone)) [
      | inr runs ↦
          rw (want_worker, runs)
            (set-Rests k r p (record v { desired = true }) s.objects h
              (λ same. absurd (ground (arith, same, n))))
      | inl idle ↦
          rw (want_worker, idle)
            (set-Rests k r p
              (record v { desired = true; timer = none; proc = some pid; started_at = now })
              s.objects h (λ same. absurd (ground (arith, same, n))))
    ]

ensure_worker-Rests :
    (cfg : SupervisorConfig) (id token : ℕ) (gone : Bool) (now pid r : ℕ) (p : Option ℕ)
    (s : Supervisor)
    → IsSound s
    → Rests r p s.objects
    → wakes (ensure id token gone now pid) r s ≡ false
    → Rests r p (ensure_worker cfg id token gone now pid s).objects
unfolding ensure_worker
ensure_worker-Rests cfg id token gone now pid r p s sound h n = elim (Bool-cases s.shutting_down) [
  | inl down ↦ rw (ensure_worker, down) h
  | inr up ↦ elim (Option-cases (JsMap.get id s.workers)) [
    | inr (k, e) ↦ elim (Option-cases (JsMap.get k s.objects)) [
      | inl g ↦ rw (ensure_worker, up, e, g) h
      | inr (v, g) ↦
          rw (ensure_worker, up, e, g)
            (want_worker-Rests cfg k v gone now pid r p s h (ground (arith, n, e)))
    ]
    | inl e ↦
        rw (ensure_worker, up, e)
          (want_worker-Rests cfg s.next
            (record {
              id = id;
              token = token;
              proc = none;
              desired = true;
              restarts = 0;
              started_at = 0;
              timer = none;
            })
            gone now pid r p
            (record s { workers = JsMap.set id s.next s.workers; next = s.next + 1 }) h
            (ground (arith, ==_iff s.next r, sound.free s.next (omega arith), h)))
  ]
]

stop_worker-Rests :
    (id : ℕ) (gone : Bool) (r : ℕ) (p : Option ℕ) (s : Supervisor)
    → Rests r p s.objects
    → Rests r p (stop_worker id gone s).objects
stop_worker-Rests id gone r p s h = elim (objects-stop_worker id gone s) [
  | inl o ↦ subst (Rests r p) (sym o) h
  | inr (k, v, g, o) ↦ subst (Rests r p) (sym o) (
      set-Rests k r p (record v { desired = false; timer = none }) s.objects h
        (λ same. (refl, refl, (held k r p v s.objects h g same).2)))
]

stopped-Rests :
    (k r : ℕ) (p : Option ℕ) (s : Supervisor)
    → Rests r p s.objects
    → Rests r p (stopped k s).objects
unfolding stopped
stopped-Rests k r p s h = elim (Option-cases (JsMap.get k s.objects)) [
  | inl e ↦ rw (stopped, e) h
  | inr (v, e) ↦
      rw (stopped, e)
        (set-Rests k r p (record v { proc = none }) s.objects h
          (λ same.
            ((held k r p v s.objects h e same).0, (held k r p v s.objects h e same).1, inr refl)))
]

remove_tenant-Rests :
    (id : ℕ) (gone : Bool) (r : ℕ) (p : Option ℕ) (s : Supervisor)
    → Rests r p s.objects
    → Rests r p (remove_tenant id gone s).objects
unfolding remove_tenant
remove_tenant-Rests id gone r p s h = elim (Bool-cases (id == 1)) [
  | inl first ↦ rw (remove_tenant, first) h
  | inr other ↦ rw (remove_tenant, other) (stop_worker-Rests id gone r p s h)
]

-- One event, which is no request for the tenant.
step-Rests :
    (cfg : SupervisorConfig) (e : Event) (r : ℕ) (p : Option ℕ) (s : Supervisor)
    → IsSound s
    → Rests r p s.objects
    → wakes e r s ≡ false
    → Rests r p (step cfg e s).objects
unfolding step
step-Rests cfg (ensure id token gone now pid) r p s sound h n =
    ensure_worker-Rests cfg id token gone now pid r p s sound h n
step-Rests cfg (exit k q now) r p s sound h n = on_exit-Rests k q now r p s h
step-Rests cfg (timer k now pid) r p s sound h n = on_timer-Rests cfg k now pid r p s h
step-Rests cfg (stop id gone) r p s sound h n = stop_worker-Rests id gone r p s h
step-Rests cfg (stop_end k) r p s sound h n = stopped-Rests k r p s h
step-Rests cfg (remove id gone) r p s sound h n = remove_tenant-Rests id gone r p s h
step-Rests cfg (forget id) r p s sound h n = h
step-Rests cfg (front_exit q now) r p s sound h n =
    subst (Rests r p) (sym (front_exit_same cfg q now s).0) h
step-Rests cfg (front_timer now pid) r p s sound h n =
    subst (Rests r p) (sym (front_timer_same cfg now pid s).0) h
step-Rests cfg (shut gone) r p s sound h n = subst (Rests r p) (sym (shut_same cfg gone s).0) h

-- A run of the supervisor.
unfoldable pub run : SupervisorConfig → List Event → Supervisor → Supervisor
run cfg [] s = s
run cfg (e ∷ es) s = run cfg es (step cfg e s)

-- No event of a run is a request for the tenant whose object is `r`, in the state that it meets.
abbrev pub quiet : SupervisorConfig → List Event → ℕ → Supervisor → Bool
quiet cfg [] r s = true
quiet cfg (e ∷ es) r s = not (wakes e r s) && quiet cfg es r (step cfg e s)

run-Rests :
    (cfg : SupervisorConfig) (es : List Event) (r : ℕ) (p : Option ℕ) (s : Supervisor)
    → IsSound s
    → Rests r p s.objects
    → quiet cfg es r s ≡ true
    → Rests r p (run cfg es s).objects
unfolding run
run-Rests cfg [] r p s sound h q = h
run-Rests cfg (e ∷ es) r p s sound h q =
    let asleep : wakes e r s ≡ false =
      negated (wakes e r s) (and_left (not (wakes e r s)) (quiet cfg es r (step cfg e s)) q) in
    run-Rests cfg es r p (step cfg e s) (step-IsSound cfg e s sound)
      (step-Rests cfg e r p s sound h asleep)
      (and_right (not (wakes e r s)) (quiet cfg es r (step cfg e s)) q)
  where
    negated : (b : Bool) → not b ≡ true → b ≡ false
    negated b h = ground arith

Rests-stop_worker :
    (id : ℕ) (gone : Bool) (r : ℕ) (w : Worker) (s : Supervisor)
    → JsMap.get id s.workers ≡ some r
    → JsMap.get r s.objects ≡ some w
    → Rests r w.proc (stop_worker id gone s).objects
unfolding stop_worker
Rests-stop_worker id gone r w s e g =
    let v = record w { desired = false; timer = none } in
    let o : (stop_worker id gone s).objects ≡ JsMap.set r v s.objects = ground (arith, e, g) in
    let same : (r == r) ≡ true = (==_iff r r).1 refl in
    subst (Rests r w.proc) (sym o)
      (v, JsMap.get-set r r v s.objects ∙ rw same, refl, refl, inl refl)

-- A worker that `stopWorker` stops rests from then on through any events among which is no request for its tenant: it is
-- not wanted, no restart of it waits, and it has the process it had or none.
pub run-stop_worker :
    (cfg : SupervisorConfig) (es : List Event) (id : ℕ) (gone : Bool) (r : ℕ) (w : Worker)
    (s : Supervisor)
    → IsSound s
    → JsMap.get id s.workers ≡ some r
    → JsMap.get r s.objects ≡ some w
    → quiet cfg es r (stop_worker id gone s) ≡ true
    → Rests r w.proc (run cfg es (stop_worker id gone s)).objects
run-stop_worker cfg es id gone r w s sound e g q =
    run-Rests cfg es r w.proc (stop_worker id gone s) (stop_worker-IsSound id gone s sound)
      (Rests-stop_worker id gone r w s e g) q
