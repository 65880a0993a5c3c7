-- ===== src/Calls/Latest.antt =====
-- Which call `latestLive` finds: the one that takes over when the current call is over.
use wa_logger.Base.{
  ◌≤◌, String, ◌≡◌, ◌∙◌, sym, ap, ◌⊎◌, true, false, Option, none, some, [], ◌∷◌, if◌then◌else◌,
  ◌&&◌, ltb, arith, inl, inr, Bool-cases, Option-cases,
}
use mathlib.Core.Path.{subst}
use mathlib.Core.Option
use wa_logger.Base.Eq.{string_eq}
use wa_logger.Base.JsMap
use wa_logger.Base.JsMap.{JsMap}
use wa_logger.Calls.Types.{CallInfo, Call, CallService, live}
use wa_logger.Calls.Bridge.{latest_from, latest_live}
use wa_logger.Calls.Lifecycle.{IsSound}

-- What the loop holds after a call.
abbrev better : Call → Option CallInfo → Option CallInfo
better call best =
    if live call.info.state
      && elim best [ none ↦ true | some b ↦ ltb b.started_at call.info.started_at ]
    then some call.info
    else best

latest_from-none :
    (m : JsMap String Call) (best : Option CallInfo)
    → latest_from best m ≡ none
    → (best ≡ none) × ((j : String) (w : Call) → JsMap.get j m ≡ some w → live w.info.state ≡ false)
unfolding latest_from JsMap.get
latest_from-none [] best h = (h, λ j w e. absurd (ground (arith, e)))
latest_from-none ((k, call) ∷ rest) best h =
    let (b, others) = latest_from-none rest (better call best) h in
    (ground (arith, b), λ j w e. ground (arith, b, e, others j w))

-- What the loop ends with: the best so far or a call of the list, and none that is live started later.
abbrev Found : Option CallInfo → JsMap String Call → CallInfo → Type 0
Found best m i =
    ((best ≡ some i)
      ⊎ ((k : String) × (v : Call) × (JsMap.get k m ≡ some v)
          × (v.info ≡ i)
          × (live i.state ≡ true)))
    × (((b : CallInfo) → best ≡ some b → b.started_at ≤ i.started_at)
        × ((j : String) (w : Call)
            → JsMap.get j m ≡ some w
            → live w.info.state ≡ true
            → w.info.started_at ≤ i.started_at))

better_from :
    (k : String) (call : Call) (rest : JsMap String Call) (best : Option CallInfo) (i : CallInfo)
    → better call best ≡ some i
    → (best ≡ some i)
      ⊎ ((j : String) × (v : Call) × (JsMap.get j ((k, call) ∷ rest) ≡ some v)
          × (v.info ≡ i)
          × (live i.state ≡ true))
unfolding JsMap.get
better_from k call rest best i h =
    elim (Bool-cases (
      live call.info.state
      && elim best [ none ↦ true | some b ↦ ltb b.started_at call.info.started_at ])) [
        | inl taken ↦
            let same : call.info ≡ i = ground (arith, h, taken) in
            inr (
              k,
              call,
              ground (arith, string_eq.beq_iff k k),
              same,
              ground (arith, taken, ap (λ x. x.state) same),
            )
        | inr kept ↦ inl (ground (arith, h, kept))
      ]

-- A live call is no later than what the loop ends with after it.
better_le :
    (call : Call) (best : Option CallInfo) (i : CallInfo)
    → live call.info.state ≡ true
    → ((b : CallInfo) → better call best ≡ some b → b.started_at ≤ i.started_at)
    → call.info.started_at ≤ i.started_at
better_le call none i l h = h call.info (ground (arith, l))
better_le call (some b) i l h = elim (Bool-cases (ltb b.started_at call.info.started_at)) [
  | inl later ↦ h call.info (ground (arith, l, later))
  | inr not_later ↦ ground (arith, h b, l, not_later)
]

latest_from-some :
    (m : JsMap String Call) (best : Option CallInfo) (i : CallInfo)
    → JsMap.IsUnique m
    → latest_from best m ≡ some i
    → Found best m i
unfolding latest_from JsMap.get
latest_from-some [] best i u h =
    (inl h, (λ b e. ground (arith, h, e), λ j w e l. absurd (ground (arith, e))))
latest_from-some ((k, call) ∷ rest) best i u h =
    let (origin, more) = latest_from-some rest (better call best) i u.1 h in
    let later : (j : String) (w : Call)
        → JsMap.get j ((k, call) ∷ rest) ≡ some w
        → live w.info.state ≡ true
        → w.info.started_at ≤ i.started_at =
      λ j w e l. elim (Bool-cases (string_eq.beq k j)) [
        | inl same ↦
            let cw : call ≡ w = ground (arith, e, same) in
            subst (λ x. x.info.started_at ≤ i.started_at) cw
              (better_le call best i (ground (arith, cw, l)) more.0)
        | inr other ↦ more.1 j w (ground (arith, e, other)) l
      ] in
    (
      elim origin [
        | inl b ↦ better_from k call rest best i b
        | inr (j, v, g, s, l) ↦ inr (j, v, ground (arith, g, u.0, string_eq.beq_iff k j), s, l)
      ],
      (λ b e. ground (arith, more.0 b, more.0 call.info, e), λ j w e l. later j w e l),
    )

-- `latestLive` finds a call exactly when one is live: when it finds none, no call is live; the one that it
-- finds is a live call of the service, and no live call started after it.
pub latest_live_lem :
    (s : CallService)
    → IsSound s.calls
    → ((latest_live s ≡ none)
        × ((k : String) (v : Call) → JsMap.get k s.calls ≡ some v → live v.info.state ≡ false))
      ⊎ ((id : String) × (v : Call) × (latest_live s ≡ some id)
          × (JsMap.get id s.calls ≡ some v)
          × (live v.info.state ≡ true)
          × ((k : String) (w : Call)
              → JsMap.get k s.calls ≡ some w
              → live w.info.state ≡ true
              → w.info.started_at ≤ v.info.started_at))
unfolding latest_live
latest_live_lem s h = elim (Option-cases (latest_from none s.calls)) [
  | inl e ↦ inl (ap (Option.map (λ info. info.id)) e, (latest_from-none s.calls none e).1)
  | inr (i, e) ↦
      let (origin, more) = latest_from-some s.calls none i h.unique e in
      elim origin [
        | inl n ↦ absurd (ground (arith, n))
        | inr (k, v, g, same, l) ↦ inr (
          k,
          v,
          ap (Option.map (λ info. info.id)) e ∙ ap some (ap (λ x. x.id) (sym same) ∙ h.key k v g),
          g,
          subst (λ x. live x.state ≡ true) (sym same) l,
          λ j w e' l'. subst (λ x. w.info.started_at ≤ x.started_at) (sym same) (more.1 j w e' l'),
        )
      ]
]
