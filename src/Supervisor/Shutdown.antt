-- ===== src/Supervisor/Shutdown.antt =====
-- server/src/supervisor/supervisor.ts: the gateway and the workers after `shutdown`.
use wa_logger.Base.{
  ℕ, ◌≡◌, refl, ◌∙◌, sym, ap, Bool, true, false, Option, none, List, [], ◌∷◌, arith, ◌⊎◌,
}
use mathlib.Core.Path.{subst}
use wa_logger.Base.Eq.{nat_eq}
use wa_logger.Base.JsMap
use wa_logger.Base.JsMap.{JsMap}
use wa_logger.Supervisor.Model.{
  Worker, SupervisorConfig, Supervisor, Event, ensure, exit, timer, stop, stop_end, remove, forget,
  front_exit, front_timer, shut, start_worker, on_exit, on_timer, ensure_worker, stopped,
  stop_worker, remove_tenant, forget_tenant, on_front_exit, on_front_timer, shutdown, step,
}
use wa_logger.Supervisor.Endings.{run}
use wa_logger.Supervisor.Fates.{Fate, get-Fate, Fate-Changes, step-Changes}

-- The gateway has the process `p` or none, and is not started any more.
pub record IsDown (p : Option ℕ) (n : ℕ) (s : Supervisor) : Type 0 where
  pub shutting_down : s.shutting_down ≡ true
  pub front_proc : (s.front.proc ≡ p) ⊎ (s.front.proc ≡ none)
  pub front_timer : s.front.timer ≡ none
  pub next : s.next ≡ n

abbrev SameFront : Supervisor → Supervisor → Type 0
SameFront t s = (t.shutting_down ≡ s.shutting_down) × (t.front ≡ s.front) × (t.next ≡ s.next)

on_exit_front : (k q now : ℕ) (s : Supervisor) → SameFront (on_exit k q now s) s
unfolding on_exit
on_exit_front k q now s = ground arith

on_timer_front :
    (cfg : SupervisorConfig) (k now pid : ℕ) (s : Supervisor)
    → SameFront (on_timer cfg k now pid s) s
unfolding on_timer start_worker
on_timer_front cfg k now pid s = ground arith

stop_worker_front : (id : ℕ) (gone : Bool) (s : Supervisor) → SameFront (stop_worker id gone s) s
unfolding stop_worker
stop_worker_front id gone s = ground arith

stopped_front : (k : ℕ) (s : Supervisor) → SameFront (stopped k s) s
unfolding stopped
stopped_front k s = ground arith

remove_tenant_front :
    (id : ℕ) (gone : Bool) (s : Supervisor) → SameFront (remove_tenant id gone s) s
unfolding remove_tenant
remove_tenant_front id gone s = ground (arith, stop_worker_front id gone s)

ensure_worker_front :
    (cfg : SupervisorConfig) (id token : ℕ) (gone : Bool) (now pid : ℕ) (s : Supervisor)
    → s.shutting_down ≡ true
    → SameFront (ensure_worker cfg id token gone now pid s) s
unfolding ensure_worker
ensure_worker_front cfg id token gone now pid s d = ground (arith, d)

same-IsDown :
    (p : Option ℕ) (n : ℕ) (t s : Supervisor) → SameFront t s → IsDown p n s → IsDown p n t
same-IsDown p n t s (d, f, x) h = record {
  shutting_down = d ∙ h.shutting_down;
  front_proc = ground (arith, f, h.front_proc);
  front_timer = ap (λ y. y.timer) f ∙ h.front_timer;
  next = x ∙ h.next;
}

front_exit-IsDown :
    (q now : ℕ) (p : Option ℕ) (n : ℕ) (s : Supervisor)
    → IsDown p n s
    → IsDown p n (on_front_exit q now s)
unfolding on_front_exit
front_exit-IsDown q now p n s h = record {
  shutting_down = ground (arith, h.shutting_down);
  front_proc = ground (arith, h.shutting_down, h.front_proc);
  front_timer = ground (arith, h.shutting_down, h.front_timer);
  next = ground (arith, h.next);
}

front_timer-IsDown :
    (now pid : ℕ) (p : Option ℕ) (n : ℕ) (s : Supervisor)
    → IsDown p n s
    → IsDown p n (on_front_timer now pid s)
unfolding on_front_timer
front_timer-IsDown now pid p n s h =
    same-IsDown p n (on_front_timer now pid s) s (ground (arith, h.front_timer)) h

shut-IsDown :
    (gone : Bool) (p : Option ℕ) (n : ℕ) (s : Supervisor)
    → IsDown p n s
    → IsDown p n (shutdown gone s)
unfolding shutdown
shut-IsDown gone p n s h = same-IsDown p n (shutdown gone s) s (ground (arith, h.shutting_down)) h

step-IsDown :
    (cfg : SupervisorConfig) (e : Event) (p : Option ℕ) (n : ℕ) (s : Supervisor)
    → IsDown p n s
    → IsDown p n (step cfg e s)
unfolding step
step-IsDown cfg (ensure id token gone now pid) p n s h =
    same-IsDown p n (ensure_worker cfg id token gone now pid s) s
      (ensure_worker_front cfg id token gone now pid s h.shutting_down) h
step-IsDown cfg (exit k q now) p n s h =
    same-IsDown p n (on_exit k q now s) s (on_exit_front k q now s) h
step-IsDown cfg (timer k now pid) p n s h =
    same-IsDown p n (on_timer cfg k now pid s) s (on_timer_front cfg k now pid s) h
step-IsDown cfg (stop id gone) p n s h =
    same-IsDown p n (stop_worker id gone s) s (stop_worker_front id gone s) h
step-IsDown cfg (stop_end k) p n s h = same-IsDown p n (stopped k s) s (stopped_front k s) h
step-IsDown cfg (remove id gone) p n s h =
    same-IsDown p n (remove_tenant id gone s) s (remove_tenant_front id gone s) h
step-IsDown cfg (forget id) p n s h = same-IsDown p n (forget_tenant id s) s (refl, refl, refl) h
step-IsDown cfg (front_exit q now) p n s h = front_exit-IsDown q now p n s h
step-IsDown cfg (front_timer now pid) p n s h = front_timer-IsDown now pid p n s h
step-IsDown cfg (shut gone) p n s h = shut-IsDown gone p n s h

run-IsDown :
    (cfg : SupervisorConfig) (es : List Event) (p : Option ℕ) (n : ℕ) (s : Supervisor)
    → IsDown p n s
    → IsDown p n (run cfg es s)
unfolding run
run-IsDown cfg [] p n s h = h
run-IsDown cfg (e ∷ es) p n s h = run-IsDown cfg es p n (step cfg e s) (step-IsDown cfg e p n s h)

IsDown-shutdown :
    (gone : Bool) (s : Supervisor)
    → s.shutting_down ≡ false
    → IsDown s.front.proc s.next (shutdown gone s)
unfolding shutdown
IsDown-shutdown gone s h = record {
  shutting_down = ground (arith, h);
  front_proc = ground (arith, h);
  front_timer = ground (arith, h);
  next = ground (arith, h);
}

run-Fate :
    (cfg : SupervisorConfig) (es : List Event) (p : Option ℕ) (n r : ℕ) (o : Option Worker)
    (s : Supervisor)
    → IsDown p n s
    → Fate r o s.objects
    → Fate r o (run cfg es s).objects
unfolding run
run-Fate cfg [] p n r o s d h = h
run-Fate cfg (e ∷ es) p n r o s d h =
    run-Fate cfg es p n r o (step cfg e s) (step-IsDown cfg e p n s d)
      (Fate-Changes r o (step cfg e s).objects s.objects (step-Changes cfg e s d.shutting_down) h)

objects-shutdown : (gone : Bool) (s : Supervisor) → (shutdown gone s).objects ≡ s.objects
unfolding shutdown
objects-shutdown gone s = ground arith

-- After `shutdown`, whatever happens: the gateway has the process it had or none and waits for no restart; no worker
-- object is made; and a worker that waited for no restart at the shutdown has the process it had or none, and
-- waits for no restart. (One that did wait may still start, since `startWorker` does not ask.)
pub shutdown-IsDown :
    (cfg : SupervisorConfig) (gone : Bool) (es : List Event) (r : ℕ) (s : Supervisor)
    → s.shutting_down ≡ false
    → IsDown s.front.proc s.next (run cfg es (shutdown gone s))
      × Fate r (JsMap.get r s.objects) (run cfg es (shutdown gone s)).objects
shutdown-IsDown cfg gone es r s h =
    let d = IsDown-shutdown gone s h in
    let same : (shutdown gone s).objects ≡ s.objects = objects-shutdown gone s in
    (
      run-IsDown cfg es s.front.proc s.next (shutdown gone s) d,
      run-Fate cfg es s.front.proc s.next r (JsMap.get r s.objects) (shutdown gone s) d
          (subst (Fate r (JsMap.get r s.objects)) (sym same) (get-Fate r s.objects)),
    )
