-- ===== src/Calls/Mixer/Queue.antt =====
-- Fifo keeps a queue of samples: the abstract view of its chunks, and what its operations do to it.
use wa_logger.Base.{
  ℕ, suc, ◌+◌, ◌-◌, ◌*◌, ◌≡◌, ◌⊎◌, ◌∙◌, refl, sym, ap, inl, inr, Bool, true, List, [], ◌∷◌, ◌++◌,
  arith, length, drop, drop-drop, length-append, drop_all, Bool-cases,
}
use mathlib.Core.Path.{subst}
use wa_logger.Crypto.Gcm.{Buffer}
use wa_logger.Calls.Mixer.{ℤ, ◌+ℤ◌, read_int16, Fifo, read_chunk, is_short, mix}

-- The samples in a run of bytes; a byte left over is none.
abbrev pub samples : Buffer → List ℤ
samples (lo ∷ hi ∷ bs) = read_int16 lo hi ∷ samples bs
samples bs = []

abbrev pub all_samples : List Buffer → List ℤ
all_samples [] = []
all_samples (c ∷ cs) = samples c ++ all_samples cs

abbrev pub samples_from : List Buffer → ℕ → List ℤ
samples_from [] offset = []
samples_from (c ∷ cs) offset = samples (drop offset c) ++ all_samples cs

-- The samples that wait, the oldest first.
abbrev pub queue : Fifo → List ℤ
queue f = samples_from f.chunks f.offset

-- Samples added to places, as far as both reach.
abbrev pub added : List ℤ → List ℤ → List ℤ
added [] q = []
added (x ∷ into) [] = x ∷ into
added (x ∷ into) (s ∷ q) = (x +ℤ s) ∷ added into q

read_chunk-added :
    (bs : Buffer) (into q : List ℤ)
    → let r = read_chunk bs into in
      (added into (samples bs ++ q) ≡ r.done ++ added r.places (samples r.bytes ++ q))
      × (drop (length into) (samples bs ++ q) ≡ drop (length r.places) (samples r.bytes ++ q))
      × (length (samples bs) ≡ r.taken + length (samples r.bytes))
      × (drop (2 * r.taken) bs ≡ r.bytes)
      × ((r.places ≡ []) ⊎ (is_short r.bytes ≡ true))
unfolding read_chunk
read_chunk-added [] into q = (refl, refl, omega arith, refl, inr refl)
read_chunk-added (b ∷ []) into q = (refl, refl, omega arith, refl, inr refl)
read_chunk-added (lo ∷ hi ∷ bs) [] q = (refl, refl, omega arith, refl, inl refl)
read_chunk-added (lo ∷ hi ∷ bs) (x ∷ into) q =
    let ih = read_chunk-added bs into q in
    let e : 2 * suc (read_chunk bs into).taken ≡ suc (suc (2 * (read_chunk bs into).taken)) =
      omega arith in
    (ap (λ l. (x +ℤ read_int16 lo hi) ∷ l) ih.0, ih.1, omega (arith, ih.2), rw e ih.3, ih.4)

samples_short : (bs : Buffer) → is_short bs ≡ true → samples bs ≡ []
samples_short [] h = refl
samples_short (b ∷ []) h = refl
samples_short (b ∷ c ∷ bs) h = absurd (ground (arith, h))

pub samples_from_start : (cs : List Buffer) → samples_from cs 0 ≡ all_samples cs
samples_from_start [] = refl
samples_from_start (c ∷ cs) = refl

added_nil : (into : List ℤ) → added into [] ≡ into
added_nil [] = refl
added_nil (x ∷ into) = refl

abbrev pub IsMixed : List ℤ → List ℤ → List ℤ × Fifo → Type 0
IsMixed into q r =
    (r.0 ≡ added into q) × (queue r.1 ≡ drop (length into) q) × (r.1.size ≡ length (queue r.1))

pub mix-IsMixed :
    (primed : Bool) (chunks : List Buffer) (offset size : ℕ) (into : List ℤ)
    → size ≡ length (samples_from chunks offset)
    → IsMixed into (samples_from chunks offset) (mix primed chunks offset size into)
unfolding mix
mix-IsMixed primed [] offset size into h =
    (sym (added_nil into), sym (drop_all (length into) [] (omega arith)), h)
mix-IsMixed primed (c ∷ cs) offset size [] h = (refl, refl, h)
mix-IsMixed primed (c ∷ cs) offset size (x ∷ into) h =
    let bs = drop offset c in
    let r = read_chunk bs (x ∷ into) in
    let q = all_samples cs in
    let is = read_chunk-added bs (x ∷ into) q in
    let total : size ≡ r.taken + length (samples r.bytes) + length q =
      omega (arith, h, length-append (samples bs) q, is.2) in
    elim (Bool-cases (is_short r.bytes)) [
      | inl short ↦
          let none_left : samples r.bytes ≡ [] = samples_short r.bytes short in
          let e : samples_from cs 0 ≡ q = samples_from_start cs in
          let zero_left : length (samples r.bytes) ≡ 0 = ap length none_left in
          let ih =
            subst (λ l. IsMixed r.places l (mix primed cs 0 (size - r.taken) r.places)) e
              (mix-IsMixed primed cs 0 (size - r.taken) r.places
                (omega (arith, total, zero_left, ap length e))) in
          rw short (
            ap (λ l. r.done ++ l) (ih.0 ∙ ap (λ l. added r.places (l ++ q)) (sym none_left))
                ∙ sym is.0,
            ih.1 ∙ ap (λ l. drop (length r.places) (l ++ q)) (sym none_left) ∙ sym is.1,
            ih.2,
          )
      | inr long ↦ elim is.4 [
        | inr short ↦ absurd (ground (arith, long, short))
        | inl full ↦
            let at : drop (offset + 2 * r.taken) c ≡ r.bytes =
              sym (drop-drop offset (2 * r.taken) c) ∙ is.3 in
            rw long (
              ap (λ l. r.done ++ l) (full ∙ ap (λ l. added l (samples r.bytes ++ q)) (sym full))
                  ∙ sym is.0,
              ap (λ b. samples b ++ q) at
                  ∙ ap (λ l. drop (length l) (samples r.bytes ++ q)) (sym full)
                  ∙ sym is.1,
              omega (
                arith,
                total,
                length-append (samples r.bytes) q,
                ap (λ b. length (samples b ++ q)) at,
              ),
            )
      ]
    ]
