-- ===== src/Supervisor/Workers.antt =====
-- What holds of the workers through any run of the supervisor: none is started twice, none is lost, and one
-- that was stopped stays so until it is asked for again.
use wa_logger.Base.{
  ℕ, zero, suc, ◌^◌, min, ◌+◌, ◌≤◌, ◌≡◌, refl, ◌∙◌, sym, Bool, true, false, none, some, [], ◌∷◌,
  ◌++◌, is_some, ◌||◌, not, leb, ◌==◌, ==_iff, arith, inl, inr, ◌⊎◌, Bool-cases, Option-cases,
}
use mathlib.Core.Path.{subst}
use wa_logger.Base.Eq.{nat_eq}
use wa_logger.Base.JsMap
use wa_logger.Base.JsMap.{JsMap}
use wa_logger.Supervisor.Model.{
  Worker, Action, SupervisorConfig, Supervisor, Event, ensure, exit, timer, stop, stop_end, remove,
  forget, front_exit, front_timer, shut, restart_delay, counted, start_worker, worker_exited,
  on_exit, on_timer, want_worker, ensure_worker, stopped, stop_worker, remove_tenant, start_front,
  on_front_exit, on_front_timer, shutdown, step,
}

-- A worker that waits for its restart has no process, is wanted, and waits between one and thirty seconds.
pub record IsTidy (w : Worker) : Type 0 where
  pub no_proc : is_some w.timer ≡ true → w.proc ≡ none
  pub desired : is_some w.timer ≡ true → w.desired ≡ true
  pub delay : (d : ℕ) → w.timer ≡ some d → (1000 ≤ d) × (d ≤ 30_000)

-- Every object is tidy, and the numbers from `next` on are free.
pub record IsSound (s : Supervisor) : Type 0 where
  pub tidy : (r : ℕ) (w : Worker) → JsMap.get r s.objects ≡ some w → IsTidy w
  pub free : (r : ℕ) → s.next ≤ r → JsMap.get r s.objects ≡ none

one_le_two_pow : (k : ℕ) → 1 ≤ 2 ^ k
one_le_two_pow zero = omega arith
one_le_two_pow (suc k) = omega (arith, one_le_two_pow k)

pub restart_delay-bounds : (n : ℕ) → (1000 ≤ restart_delay n) × (restart_delay n ≤ 30_000)
unfolding restart_delay
restart_delay-bounds n = (omega (arith, one_le_two_pow (min n 5)), omega arith)

worker_exited-IsTidy :
    (down : Bool) (p now : ℕ) (w : Worker) → IsTidy w → IsTidy (worker_exited down p now w)
unfolding worker_exited
worker_exited-IsTidy down p now w h = record {
  no_proc = λ e. ground (arith, h.no_proc);
  desired = λ e. ground (arith, h.desired);
  delay =
      λ d e. ground (arith, h.delay d, restart_delay-bounds (counted now w.started_at w.restarts));
}

set-IsTidy :
    (k : ℕ) (v : Worker) (m : JsMap ℕ Worker)
    → ((r : ℕ) (w : Worker) → JsMap.get r m ≡ some w → IsTidy w)
    → IsTidy v
    → (r : ℕ) (w : Worker) → JsMap.get r (JsMap.set k v m) ≡ some w
    → IsTidy w
set-IsTidy k v m h t r w e = elim (Bool-cases (k == r)) [
  | inl same ↦ let q : v ≡ w = ground (arith, JsMap.get-set k r v m) in subst IsTidy q t
  | inr other ↦ h r w (sym (JsMap.get-set k r v m ∙ rw other) ∙ e)
]

set-free :
    (k n : ℕ) (v : Worker) (m : JsMap ℕ Worker)
    → ((r : ℕ) → n ≤ r → JsMap.get r m ≡ none)
    → suc k ≤ n
    → (r : ℕ) → n ≤ r
    → JsMap.get r (JsMap.set k v m) ≡ none
set-free k n v m h l r e = ground (arith, JsMap.get-set k r v m, h r e, ==_iff k r)

start_worker-IsSound :
    (cfg : SupervisorConfig) (r : ℕ) (w : Worker) (now pid : ℕ) (s : Supervisor)
    → IsSound s
    → suc r ≤ s.next
    → IsSound (start_worker cfg r w now pid s)
unfolding start_worker
start_worker-IsSound cfg r w now pid s h l =
    let v = record w { timer = none; proc = some pid; started_at = now } in
    record {
      tidy = set-IsTidy r v s.objects h.tidy (record {
        no_proc = λ e. absurd (ground (arith, e));
        desired = λ e. absurd (ground (arith, e));
        delay = λ d e. absurd (ground (arith, e));
      });
      free = set-free r s.next v s.objects h.free l;
    }

-- An object that is there has a number below `next`.
pub taken :
    (s : Supervisor) (r : ℕ) (w : Worker)
    → IsSound s
    → JsMap.get r s.objects ≡ some w
    → suc r ≤ s.next
taken s r w h e = elim (Bool-cases (leb s.next r)) [
  | inl above ↦ absurd (ground (arith, h.free r, e, above))
  | inr below ↦ ground (arith, below)
]

store-IsSound :
    (r : ℕ) (v w : Worker) (s : Supervisor)
    → IsSound s
    → JsMap.get r s.objects ≡ some w
    → IsTidy v
    → IsSound (record s { objects = JsMap.set r v s.objects })
store-IsSound r v w s h e t = record {
  tidy = set-IsTidy r v s.objects h.tidy t;
  free = set-free r s.next v s.objects h.free (taken s r w h e);
}

on_exit-IsSound : (r p now : ℕ) (s : Supervisor) → IsSound s → IsSound (on_exit r p now s)
unfolding on_exit
on_exit-IsSound r p now s h = elim (Option-cases (JsMap.get r s.objects)) [
  | inl e ↦ rw (on_exit, e) h
  | inr (w, e) ↦
      rw (on_exit, e)
        (store-IsSound r (worker_exited s.shutting_down p now w) w s h e
          (worker_exited-IsTidy s.shutting_down p now w (h.tidy r w e)))
]

on_timer-IsSound :
    (cfg : SupervisorConfig) (r now pid : ℕ) (s : Supervisor)
    → IsSound s
    → IsSound (on_timer cfg r now pid s)
unfolding on_timer
on_timer-IsSound cfg r now pid s h = elim (Option-cases (JsMap.get r s.objects)) [
  | inl e ↦ rw (on_timer, e) h
  | inr (w, e) ↦ elim (Bool-cases (is_some w.timer)) [
    | inl set ↦ rw (on_timer, e, set) (start_worker-IsSound cfg r w now pid s h (taken s r w h e))
    | inr clear ↦ rw (on_timer, e, clear) h
  ]
]

want_worker-IsSound :
    (cfg : SupervisorConfig) (r : ℕ) (w : Worker) (gone : Bool) (now pid : ℕ) (s : Supervisor)
    → IsSound s
    → suc r ≤ s.next
    → IsTidy w
    → IsSound (want_worker cfg r w gone now pid s)
unfolding want_worker
want_worker-IsSound cfg r w gone now pid s h l t =
    elim (Bool-cases (not (is_some w.proc) || gone)) [
      | inl start ↦
          rw (want_worker, start)
            (start_worker-IsSound cfg r (record w { desired = true }) now pid s h l)
      | inr runs ↦
          rw (want_worker, runs)
            (record {
              tidy =
                  set-IsTidy r (record w { desired = true }) s.objects h.tidy
                    (record { no_proc = t.no_proc; desired = λ e. refl; delay = t.delay });
              free = set-free r s.next (record w { desired = true }) s.objects h.free l;
            })
    ]

refused-IsSound :
    (a : Action) (s : Supervisor) → IsSound s → IsSound (record s { out = s.out ++ (a ∷ []) })
refused-IsSound a s h = record { tidy = h.tidy; free = h.free }

ensure_worker-IsSound :
    (cfg : SupervisorConfig) (id token : ℕ) (gone : Bool) (now pid : ℕ) (s : Supervisor)
    → IsSound s
    → IsSound (ensure_worker cfg id token gone now pid s)
unfolding ensure_worker
ensure_worker-IsSound cfg id token gone now pid s h = elim (Bool-cases s.shutting_down) [
  | inl down ↦ rw (ensure_worker, down) (record { tidy = h.tidy; free = h.free })
  | inr up ↦ elim (Option-cases (JsMap.get id s.workers)) [
    | inl e ↦
        rw (ensure_worker, up, e)
          (want_worker-IsSound cfg s.next
            (record {
              id = id;
              token = token;
              proc = none;
              desired = true;
              restarts = 0;
              started_at = 0;
              timer = none;
            })
            gone now pid (record s { workers = JsMap.set id s.next s.workers; next = s.next + 1 })
            (record { tidy = h.tidy; free = λ r l. h.free r (omega (arith, l)) }) (omega arith)
            (record {
              no_proc = λ e. refl;
              desired = λ e. refl;
              delay = λ d e. absurd (ground (arith, e));
            }))
    | inr (r, e) ↦ elim (Option-cases (JsMap.get r s.objects)) [
      | inl g ↦ rw (ensure_worker, up, e, g) h
      | inr (w, g) ↦
          rw (ensure_worker, up, e, g)
            (want_worker-IsSound cfg r w gone now pid s h (taken s r w h g) (h.tidy r w g))
    ]
  ]
]

stopped-IsSound : (r : ℕ) (s : Supervisor) → IsSound s → IsSound (stopped r s)
unfolding stopped
stopped-IsSound r s h = elim (Option-cases (JsMap.get r s.objects)) [
  | inl e ↦ rw (stopped, e) h
  | inr (w, e) ↦
      rw (stopped, e)
        (store-IsSound r (record w { proc = none }) w s h e
          (record {
            no_proc = λ e. refl;
            desired = (h.tidy r w e).desired;
            delay = (h.tidy r w e).delay;
          }))
]

same-IsSound : (t s : Supervisor) → t.objects ≡ s.objects → t.next ≡ s.next → IsSound s → IsSound t
same-IsSound t s o n h = record {
  tidy = λ r w e. h.tidy r w (ground (arith, o, e));
  free = λ r l. ground (arith, o, n, h.free r);
}

-- The objects after `stopWorker`.
pub objects-stop_worker :
    (id : ℕ) (gone : Bool) (s : Supervisor)
    → ((stop_worker id gone s).objects ≡ s.objects)
      ⊎ ((r : ℕ) × (w : Worker) × (JsMap.get r s.objects ≡ some w)
          × ((stop_worker id gone s).objects
              ≡ JsMap.set r (record w { desired = false; timer = none }) s.objects))
unfolding stop_worker
objects-stop_worker id gone s = elim (Option-cases (JsMap.get id s.workers)) [
  | inl e ↦ inl (rw (stop_worker, e) refl)
  | inr (r, e) ↦ elim (Option-cases (JsMap.get r s.objects)) [
    | inl g ↦ inl (rw (stop_worker, e, g) refl)
    | inr (w, g) ↦ inr (r, w, g, ground (arith, e, g))
  ]
]

next-stop_worker : (id : ℕ) (gone : Bool) (s : Supervisor) → (stop_worker id gone s).next ≡ s.next
unfolding stop_worker
next-stop_worker id gone s = ground arith

pub stop_worker-IsSound :
    (id : ℕ) (gone : Bool) (s : Supervisor) → IsSound s → IsSound (stop_worker id gone s)
stop_worker-IsSound id gone s h = elim (objects-stop_worker id gone s) [
  | inl o ↦ same-IsSound (stop_worker id gone s) s o (next-stop_worker id gone s) h
  | inr (r, w, g, o) ↦
      let v = record w { desired = false; timer = none } in
      same-IsSound (stop_worker id gone s) (record s { objects = JsMap.set r v s.objects }) o
        (next-stop_worker id gone s)
        (store-IsSound r v w s h g (record {
          no_proc = λ e. absurd (ground (arith, e));
          desired = λ e. absurd (ground (arith, e));
          delay = λ d e. absurd (ground (arith, e));
        }))
]

remove_tenant-IsSound :
    (id : ℕ) (gone : Bool) (s : Supervisor) → IsSound s → IsSound (remove_tenant id gone s)
unfolding remove_tenant
remove_tenant-IsSound id gone s h = elim (Bool-cases (id == 1)) [
  | inl first ↦ rw (remove_tenant, first) (refused-IsSound (Action.refused id) s h)
  | inr other ↦ rw (remove_tenant, other) (stop_worker-IsSound id gone s h)
]

-- What does not touch the objects.
abbrev pub SameObjects : (cfg : SupervisorConfig) (e : Event) (s : Supervisor) → Type 0
SameObjects cfg e s = ((step cfg e s).objects ≡ s.objects) × ((step cfg e s).next ≡ s.next)

pub front_exit_same :
    (cfg : SupervisorConfig) (p now : ℕ) (s : Supervisor) → SameObjects cfg (front_exit p now) s
unfolding step on_front_exit
front_exit_same cfg p now s = ground arith

pub front_timer_same :
    (cfg : SupervisorConfig) (now pid : ℕ) (s : Supervisor)
    → SameObjects cfg (front_timer now pid) s
unfolding step on_front_timer start_front
front_timer_same cfg now pid s = ground arith

pub shut_same :
    (cfg : SupervisorConfig) (gone : Bool) (s : Supervisor) → SameObjects cfg (shut gone) s
unfolding step shutdown
shut_same cfg gone s = ground arith

-- Every event keeps the supervisor sound: a worker that waits for a restart has no process, is wanted,
-- and waits between one and thirty seconds, and a new object never takes the number of another.
pub step-IsSound :
    (cfg : SupervisorConfig) (e : Event) (s : Supervisor) → IsSound s → IsSound (step cfg e s)
unfolding step
step-IsSound cfg (ensure id token gone now pid) s h =
    ensure_worker-IsSound cfg id token gone now pid s h
step-IsSound cfg (exit r p now) s h = on_exit-IsSound r p now s h
step-IsSound cfg (timer r now pid) s h = on_timer-IsSound cfg r now pid s h
step-IsSound cfg (stop id gone) s h = stop_worker-IsSound id gone s h
step-IsSound cfg (stop_end r) s h = stopped-IsSound r s h
step-IsSound cfg (remove id gone) s h = remove_tenant-IsSound id gone s h
step-IsSound cfg (forget id) s h = same-IsSound (step cfg (forget id) s) s refl refl h
step-IsSound cfg (front_exit p now) s h =
    same-IsSound (step cfg (front_exit p now) s) s (front_exit_same cfg p now s).0
      (front_exit_same cfg p now s).1 h
step-IsSound cfg (front_timer now pid) s h =
    same-IsSound (step cfg (front_timer now pid) s) s (front_timer_same cfg now pid s).0
      (front_timer_same cfg now pid s).1 h
step-IsSound cfg (shut gone) s h =
    same-IsSound (step cfg (shut gone) s) s (shut_same cfg gone s).0 (shut_same cfg gone s).1 h
