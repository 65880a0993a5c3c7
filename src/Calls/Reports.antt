-- ===== src/Calls/Reports.antt =====
-- `onCall` keeps every call sound, and lets each go on only as a call may.
use wa_logger.Base.{
  String, ◌≡◌, refl, ◌∙◌, sym, inl, inr, Bool, true, false, Option, none, some, arith, ◌&&◌,
  Bool-cases, Option-cases,
}
use mathlib.Core.Path.{subst}
use wa_logger.Base.Eq.{string_eq}
use wa_logger.Base.JsMap
use wa_logger.Base.JsMap.{JsMap}
use wa_logger.Calls.Types.{
  CallState, ended, Mapped, state, RawCall, Call, CallService, Env, same_state, live,
}
use wa_logger.Calls.Service.{
  updated, new_call, track, unchanged, on_call, alive, if_tracked, mapped_of,
}
use wa_logger.Calls.Lifecycle.{
  IsCall, Follows, Follows-refl, IsSound, stored, stored-IsCall, stored-Follows, updated-IsCall,
  calls-update,
}

and_false : (b : Bool) → b && false ≡ false
and_false true = refl
and_false false = refl

new_stored-IsCall :
    (env : Env) (c : RawCall) (m : Mapped) (st : CallState)
    → IsCall (stored env c m true (new_call env c st)).info
unfolding unchanged
new_stored-IsCall env c m st =
    rw and_false (updated-IsCall env c m (new_call env c st).info (λ h. cc) refl refl)

pub set-IsSound :
    (k : String) (v : Call) (m : JsMap String Call)
    → IsSound m
    → IsCall v.info
    → v.info.id ≡ k
    → IsSound (JsMap.set k v m)
set-IsSound k v m h w e = record {
  unique = JsMap.set-IsUnique k v m h.unique;
  call = λ j x p. elim (Bool-cases (string_eq.beq k j)) [
    | inl same ↦
        let q : v ≡ x = ground (arith, JsMap.get-set k j v m) in subst (λ y. IsCall y.info) q w
    | inr other ↦ h.call j x (sym (JsMap.get-set k j v m ∙ rw other) ∙ p)
  ];
  key = λ j x p. ground (arith, JsMap.get-set k j v m, string_eq.beq_iff k j, h.key j x);
}

id-stored :
    (env : Env) (c : RawCall) (m : Mapped) (created : Bool) (call : Call)
    → (stored env c m created call).info.id ≡ call.info.id
unfolding unchanged updated
id-stored env c m created call = ground arith

update-IsSound :
    (env : Env) (c : RawCall) (m : Option Mapped) (call : Call) (s : CallService)
    → IsSound s.calls
    → JsMap.get c.id s.calls ≡ some call
    → IsSound (if_tracked env c m false call s).calls
update-IsSound env c none call s h e = h
update-IsSound env c (some m) call s h e = elim (Bool-cases (same_state call.info.state ended)) [
  | inl over ↦ rw over h
  | inr going ↦
      rw (going, calls-update env c m false call s)
        (set-IsSound c.id (stored env c m false call) s.calls h
          (stored-IsCall env c m call (ground arith) (h.call c.id call e))
          (id-stored env c m false call ∙ h.key c.id call e))
]

on_call-known :
    (env : Env) (c : RawCall) (call : Call) (s : CallService)
    → JsMap.get c.id s.calls ≡ some call
    → on_call env c s ≡ if_tracked env c (mapped_of c) false call s
unfolding on_call
on_call-known env c call s e = rw (e, on_call)

on_call-ignored :
    (env : Env) (c : RawCall) (s : CallService)
    → JsMap.get c.id s.calls ≡ none
    → alive (mapped_of c) ≡ none
    → on_call env c s ≡ s
unfolding on_call
on_call-ignored env c s e a = rw (e, on_call, a)

on_call-new :
    (env : Env) (c : RawCall) (st : CallState) (s : CallService)
    → JsMap.get c.id s.calls ≡ none
    → alive (mapped_of c) ≡ some st
    → on_call env c s
      ≡ if_tracked env c (mapped_of c) true (new_call env c st) (track env c (new_call env c st) s)
unfolding on_call
on_call-new env c st s e a = rw (e, on_call, a)

calls-track :
    (env : Env) (c : RawCall) (call : Call) (s : CallService)
    → (track env c call s).calls ≡ JsMap.set c.id call s.calls
unfolding track
calls-track env c call s = ground arith

-- A state that is tracked is a live one, as it was reported.
alive_lem :
    (m : Option Mapped) (st : CallState)
    → alive m ≡ some st
    → (m ≡ some (state st)) × (live st ≡ true)
alive_lem m st h = ground arith

calls-new :
    (env : Env) (c : RawCall) (st : CallState) (s : CallService)
    → live st ≡ true
    → (if_tracked env c
        (some (state st))
        true
        (new_call env c st)
        (track env c (new_call env c st) s)).calls
      ≡ JsMap.set c.id (stored env c (state st) true (new_call env c st)) s.calls
calls-new env c st s l =
    let notover : same_state st ended ≡ false = ground arith in
    rw
      (
        notover,
        calls-update env c (state st) true (new_call env c st) (track env c (new_call env c st) s),
        calls-track env c (new_call env c st) s,
      )
      (JsMap.set-set c.id (stored env c (state st) true (new_call env c st)) (new_call env c st)
        s.calls)

new-IsSound :
    (env : Env) (c : RawCall) (st : CallState) (s : CallService)
    → IsSound s.calls
    → JsMap.get c.id s.calls ≡ none
    → alive (mapped_of c) ≡ some st
    → IsSound (on_call env c s).calls
new-IsSound env c st s h e a =
    let (m, l) = alive_lem (mapped_of c) st a in
    rw (on_call-new env c st s e a, m, calls-new env c st s l)
      (set-IsSound c.id (stored env c (state st) true (new_call env c st)) s.calls h
        (new_stored-IsCall env c (state st) st)
        (id-stored env c (state st) true (new_call env c st)))

-- Whatever the page reports of a call, the calls of the service stay sound: each stands once and under
-- its own id, has a time of connection only when it is active or ended (and always when it is
-- active), and has an end time and an end reason exactly when it has ended.
pub on_call-IsSound :
    (env : Env) (c : RawCall) (s : CallService) → IsSound s.calls → IsSound (on_call env c s).calls
on_call-IsSound env c s h = elim (Option-cases (JsMap.get c.id s.calls)) [
  | inr (call, e) ↦
      rw (on_call-known env c call s e) (update-IsSound env c (mapped_of c) call s h e)
  | inl e ↦ elim (Option-cases (alive (mapped_of c))) [
    | inl a ↦ rw (on_call-ignored env c s e a) h
    | inr (st, a) ↦ new-IsSound env c st s h e a
  ]
]

set-Follows :
    (k j : String) (a v : Call) (m : JsMap String Call)
    → JsMap.get j m ≡ some a
    → ((string_eq.beq k j ≡ true) → Follows a.info v.info)
    → (b : Call) × ((JsMap.get j (JsMap.set k v m) ≡ some b) × Follows a.info b.info)
set-Follows k j a v m e f = elim (Bool-cases (string_eq.beq k j)) [
  | inl same ↦ (v, (JsMap.get-set k j v m ∙ rw same, f same))
  | inr other ↦ (a, (JsMap.get-set k j v m ∙ rw (other, e), Follows-refl a.info))
]

known-Follows :
    (env : Env) (c : RawCall) (m : Option Mapped) (k : String) (a call : Call) (s : CallService)
    → JsMap.get c.id s.calls ≡ some call
    → JsMap.get k s.calls ≡ some a
    → (b : Call) × ((JsMap.get k (if_tracked env c m false call s).calls ≡ some b)
        × Follows a.info b.info)
known-Follows env c none k a call s e p = (a, (p, Follows-refl a.info))
known-Follows env c (some m) k a call s e p = elim (Bool-cases (same_state call.info.state ended)) [
  | inl over ↦ rw over (a, (p, Follows-refl a.info))
  | inr going ↦
      rw (going, calls-update env c m false call s)
        (set-Follows c.id k a (stored env c m false call) s.calls p (λ same.
          let q : call ≡ a = ground (arith, string_eq.beq_iff c.id k) in
          subst (λ x. Follows x.info (stored env c m false call).info) q
            (stored-Follows env c m false call (ground arith))))
]

new-Follows :
    (env : Env) (c : RawCall) (st : CallState) (k : String) (a : Call) (s : CallService)
    → JsMap.get c.id s.calls ≡ none
    → alive (mapped_of c) ≡ some st
    → JsMap.get k s.calls ≡ some a
    → (b : Call) × ((JsMap.get k (on_call env c s).calls ≡ some b) × Follows a.info b.info)
new-Follows env c st k a s e l p =
    let (m, l') = alive_lem (mapped_of c) st l in
    rw (on_call-new env c st s e l, m, calls-new env c st s l')
      (set-Follows c.id k a (stored env c (state st) true (new_call env c st)) s.calls p
        (λ same. absurd (ground (arith, string_eq.beq_iff c.id k))))

-- Whatever the page reports of a call, every call the service knows goes on as a call may: it is still
-- there, with its id, direction and start time; a video call stays one; the time at which it
-- connected, once set, is never moved; and a call that has ended is left exactly as it was.
pub on_call-Follows :
    (env : Env) (c : RawCall) (k : String) (a : Call) (s : CallService)
    → JsMap.get k s.calls ≡ some a
    → (b : Call) × ((JsMap.get k (on_call env c s).calls ≡ some b) × Follows a.info b.info)
on_call-Follows env c k a s p = elim (Option-cases (JsMap.get c.id s.calls)) [
  | inr (call, e) ↦
      rw (on_call-known env c call s e) (known-Follows env c (mapped_of c) k a call s e p)
  | inl e ↦ elim (Option-cases (alive (mapped_of c))) [
    | inl l ↦ rw (on_call-ignored env c s e l) (a, (p, Follows-refl a.info))
    | inr (st, l) ↦ new-Follows env c st k a s e l p
  ]
]
