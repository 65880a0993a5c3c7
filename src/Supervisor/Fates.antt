-- ===== src/Supervisor/Fates.antt =====
-- server/src/supervisor/supervisor.ts: what becomes of a worker while the supervisor shuts down.
use wa_logger.Base.{
  ℕ, ◌≡◌, refl, ◌∙◌, sym, ap, Bool, true, false, Option, none, some, is_some, ◌==◌, ==_iff, arith,
  inl, inr, ◌⊎◌, Bool-cases, Option-cases,
}
use mathlib.Core.Path.{subst}
use wa_logger.Base.Eq.{nat_eq}
use wa_logger.Base.JsMap
use wa_logger.Base.JsMap.{JsMap}
use wa_logger.Supervisor.Model.{
  Worker, SupervisorConfig, Supervisor, Event, ensure, exit, timer, stop, stop_end, remove, forget,
  front_exit, front_timer, shut, start_worker, worker_exited, on_exit, on_timer, ensure_worker,
  stopped, stop_worker, remove_tenant, step,
}
use wa_logger.Supervisor.Workers.{objects-stop_worker, front_exit_same, front_timer_same, shut_same}

-- The object has the process `p` or none, and waits for no restart.
abbrev pub Settled : ℕ → Option ℕ → JsMap ℕ Worker → Type 0
Settled r p m =
    (v : Worker) × (JsMap.get r m ≡ some v) × (v.timer ≡ none) × ((v.proc ≡ p) ⊎ (v.proc ≡ none))

-- What becomes of the object `r`, by what stood under the number at first.
abbrev pub Fate : ℕ → Option Worker → JsMap ℕ Worker → Type 0
Fate r none m = JsMap.get r m ≡ none
Fate r (some w) m = (is_some w.timer ≡ true) ⊎ Settled r w.proc m

-- The objects are as before, or one of them is another: if it did not wait for a restart, it still does not, and has the
-- process it had or none.
abbrev pub Changes : JsMap ℕ Worker → JsMap ℕ Worker → Type 0
Changes t m =
    (t ≡ m)
    ⊎ ((k : ℕ) × (v w : Worker) × (JsMap.get k m ≡ some v)
        × (t ≡ JsMap.set k w m)
        × ((is_some v.timer ≡ true) ⊎ ((w.timer ≡ none) × ((w.proc ≡ v.proc) ⊎ (w.proc ≡ none)))))

Fate-set :
    (r k : ℕ) (v w : Worker) (o : Option Worker) (m : JsMap ℕ Worker)
    → JsMap.get k m ≡ some v
    → (is_some v.timer ≡ true) ⊎ ((w.timer ≡ none) × ((w.proc ≡ v.proc) ⊎ (w.proc ≡ none)))
    → Fate r o m
    → Fate r o (JsMap.set k w m)
Fate-set r k v w none m g c h = elim (Bool-cases (k == r)) [
  | inl same ↦
      let kr : k ≡ r = ground (arith, ==_iff k r, same) in absurd (ground (arith, g, h, kr))
  | inr other ↦ JsMap.get-set k r w m ∙ rw (other, h)
]
Fate-set r k v w (some x) m g c (inl waits) = inl waits
Fate-set r k v w (some x) m g c (inr (y, e, t, p)) = elim (Bool-cases (k == r)) [
  | inr other ↦ inr (y, JsMap.get-set k r w m ∙ rw (other, e), t, p)
  | inl same ↦
      let kr : k ≡ r = ground (arith, ==_iff k r, same) in
      let vy : v ≡ y = ground (arith, g, e, kr) in
      let clear : v.timer ≡ none = ap (λ z. z.timer) vy ∙ t in
      let had = ap (λ z. z.proc) vy in
      inr (
        w,
        JsMap.get-set k r w m ∙ rw same,
        ground (arith, c, clear),
        ground (arith, c, clear, had, p),
      )
]

pub Fate-Changes :
    (r : ℕ) (o : Option Worker) (t m : JsMap ℕ Worker) → Changes t m → Fate r o m → Fate r o t
Fate-Changes r o t m (inl same) h = subst (Fate r o) (sym same) h
Fate-Changes r o t m (inr (k, v, w, g, e, c)) h =
    subst (Fate r o) (sym e) (Fate-set r k v w o m g c h)

on_exit-Changes :
    (k q now : ℕ) (s : Supervisor)
    → s.shutting_down ≡ true
    → Changes (on_exit k q now s).objects s.objects
unfolding on_exit worker_exited
on_exit-Changes k q now s d = elim (Option-cases (JsMap.get k s.objects)) [
  | inl e ↦ inl (rw (on_exit, e) refl)
  | inr (v, e) ↦ elim (Bool-cases (is_some v.timer)) [
    | inl waits ↦
        inr (k, v, worker_exited s.shutting_down q now v, e, rw (on_exit, e) refl, inl waits)
    | inr clear ↦ inr (
      k,
      v,
      worker_exited s.shutting_down q now v,
      e,
      rw (on_exit, e) refl,
      inr (ground (arith, d, clear), ground (arith, d)),
    )
  ]
]

on_timer-Changes :
    (cfg : SupervisorConfig) (k now pid : ℕ) (s : Supervisor)
    → Changes (on_timer cfg k now pid s).objects s.objects
unfolding on_timer start_worker
on_timer-Changes cfg k now pid s = elim (Option-cases (JsMap.get k s.objects)) [
  | inl e ↦ inl (rw (on_timer, e) refl)
  | inr (v, e) ↦ elim (Bool-cases (is_some v.timer)) [
    | inr clear ↦ inl (rw (on_timer, e, clear) refl)
    | inl waits ↦ inr (
      k,
      v,
      record v { timer = none; proc = some pid; started_at = now },
      e,
      rw (on_timer, e, waits) refl,
      inl waits,
    )
  ]
]

stop_worker-Changes :
    (id : ℕ) (gone : Bool) (s : Supervisor) → Changes (stop_worker id gone s).objects s.objects
stop_worker-Changes id gone s = elim (objects-stop_worker id gone s) [
  | inl o ↦ inl o
  | inr (k, v, g, o) ↦
      inr (k, v, record v { desired = false; timer = none }, g, o, inr (refl, inl refl))
]

stopped-Changes : (k : ℕ) (s : Supervisor) → Changes (stopped k s).objects s.objects
unfolding stopped
stopped-Changes k s = elim (Option-cases (JsMap.get k s.objects)) [
  | inl e ↦ inl (rw (stopped, e) refl)
  | inr (v, e) ↦ elim (Option-cases v.timer) [
    | inl clear ↦
        inr (k, v, record v { proc = none }, e, rw (stopped, e) refl, inr (clear, inr refl))
    | inr (n, waits) ↦
        inr (k, v, record v { proc = none }, e, rw (stopped, e) refl, inl (ap is_some waits))
  ]
]

remove_tenant-Changes :
    (id : ℕ) (gone : Bool) (s : Supervisor) → Changes (remove_tenant id gone s).objects s.objects
unfolding remove_tenant
remove_tenant-Changes id gone s = elim (Bool-cases (id == 1)) [
  | inl first ↦ inl (rw (remove_tenant, first) refl)
  | inr other ↦ rw (remove_tenant, other) (stop_worker-Changes id gone s)
]

pub step-Changes :
    (cfg : SupervisorConfig) (e : Event) (s : Supervisor)
    → s.shutting_down ≡ true
    → Changes (step cfg e s).objects s.objects
unfolding step ensure_worker
step-Changes cfg (ensure id token gone now pid) s d = inl (rw (ensure_worker, d) refl)
step-Changes cfg (exit k q now) s d = on_exit-Changes k q now s d
step-Changes cfg (timer k now pid) s d = on_timer-Changes cfg k now pid s
step-Changes cfg (stop id gone) s d = stop_worker-Changes id gone s
step-Changes cfg (stop_end k) s d = stopped-Changes k s
step-Changes cfg (remove id gone) s d = remove_tenant-Changes id gone s
step-Changes cfg (forget id) s d = inl refl
step-Changes cfg (front_exit q now) s d = inl (front_exit_same cfg q now s).0
step-Changes cfg (front_timer now pid) s d = inl (front_timer_same cfg now pid s).0
step-Changes cfg (shut gone) s d = inl (shut_same cfg gone s).0

pub get-Fate : (r : ℕ) (m : JsMap ℕ Worker) → Fate r (JsMap.get r m) m
get-Fate r m = elim (Option-cases (JsMap.get r m)) [
  | inl e ↦ subst (λ o. Fate r o m) (sym e) e
  | inr (w, e) ↦
      subst (λ o. Fate r o m) (sym e)
        (elim (Option-cases w.timer) [
          | inl clear ↦ inr (w, e, clear, inl refl)
          | inr (n, waits) ↦ inl (ap is_some waits)
        ])
]
