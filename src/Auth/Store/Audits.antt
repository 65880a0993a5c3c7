-- ===== src/Auth/Store/Audits.antt =====
-- How long the audit log gets.
use wa_logger.Base.{
  ℕ, ◌+◌, ◌≤◌, ◌<◌, ◌≡◌, List, [], ◌∷◌, arith, ltb, length, Bool-cases, inl, inr, String, Option,
  Bool, ◌⊎◌, refl,
}
use wa_logger.Auth.Store.{AuditRow, Repo, top_id, keep_audits, audit}

-- Ids go down from the newest entry on.
abbrev pub IsDescending : List AuditRow → Type 0
IsDescending [] = Unit
IsDescending (a ∷ rest) = (top_id rest < a.id) × IsDescending rest

abbrev IsRecent : ℕ → List AuditRow → Type 0
IsRecent id [] = Unit
IsRecent id (a ∷ rest) = (id < a.id + 5000) × IsRecent id rest

abbrev recent : ℕ → AuditRow → Bool
recent id a = ltb id (a.id + 5000)

keep_audits_lem :
    (id : ℕ) (l : List AuditRow)
    → IsDescending l
    → (top_id (keep_audits (recent id) l) ≤ top_id l)
      × IsDescending (keep_audits (recent id) l)
      × IsRecent id (keep_audits (recent id) l)
keep_audits_lem id [] d = (omega arith, tt, tt)
keep_audits_lem id (a ∷ rest) d =
    let ih = keep_audits_lem id rest d.1 in
    elim (Bool-cases (recent id a)) [
      | inl kept ↦
          rw kept (omega arith, (omega (arith, ih, d.0), ih.1), (ground (arith, kept), ih.2))
      | inr gone ↦ rw gone (omega (arith, ih, d.0), ih.1, ih.2)
    ]

-- Entries that go down and stay above a limit are no more than the ids above it.
length_recent :
    (id : ℕ) (l : List AuditRow)
    → IsDescending l
    → IsRecent id l
    → (l ≡ []) ⊎ (length l + id ≤ top_id l + 4999 + 1)
length_recent id [] d r = inl refl
length_recent id (a ∷ []) d r = inr (omega (arith, r.0))
length_recent id (a ∷ b ∷ rest) d r = elim (length_recent id (b ∷ rest) d.1 r.1) [
  | inl e ↦ absurd (ground (arith, e))
  | inr h ↦ inr (omega (arith, h, d.0))
]

-- When the ids of the log go down from its newest entry on, they still do after a new entry, and the log then has at
-- most 5000 entries.
pub audit-IsDescending :
    (event : String) (ip : Option String) (ts : ℕ) (r : Repo)
    → IsDescending r.audits
    → IsDescending (audit event ip ts r).audits × (length (audit event ip ts r).audits ≤ 5000)
unfolding audit
audit-IsDescending event ip ts r d =
    let id = top_id r.audits + 1 in
    let row : AuditRow = record { id = id; ts = ts; event = event; ip = ip } in
    let k = keep_audits_lem id (row ∷ r.audits) (omega arith, d) in
    (
      k.1,
      elim (length_recent id (keep_audits (recent id) (row ∷ r.audits)) k.1 k.2) [
        | inl e ↦ rw e (omega arith)
        | inr h ↦ omega (arith, h, k.0)
      ],
    )
