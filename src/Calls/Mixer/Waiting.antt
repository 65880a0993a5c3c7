-- ===== src/Calls/Mixer/Waiting.antt =====
-- What Fifo promises, in terms of the samples that wait.
use wa_logger.Base.{
  ℕ, ◌+◌, ◌-◌, ◌≤◌, ◌<◌, ◌≡◌, ◌⊎◌, ◌∙◌, refl, sym, ap, inl, inr, Bool, true, false, List, [], ◌∷◌,
  ◌++◌, arith, length, drop, Bool-cases, ltb, if◌then◌else◌, ◌==◌, not, ◌&&◌,
}
use wa_logger.Crypto.Gcm.{Buffer}
use wa_logger.Calls.Mixer.{read_chunk, is_short, ℤ, cap_samples, Fifo, mix, mix_primed, mix_into}
use wa_logger.Calls.Mixer.Queue.{samples, queue, added, mix-IsMixed}

abbrev IsStart : List Buffer → ℕ → Type 0
IsStart [] offset = offset ≡ 0
IsStart (c ∷ cs) offset = Unit

-- The size is that of the queue, and nothing is consumed of no chunk.
pub record IsFifo (f : Fifo) : Type 0 where
  pub counts : f.size ≡ length (queue f)
  pub starts : IsStart f.chunks f.offset

-- Of the chunks either all are there, and nothing is gone, or the last one that went had to go: with it more than
-- a second of sound would wait.
abbrev pub HadToGo : List Buffer → ℕ → Fifo → Type 0
HadToGo cs k f =
    ((k ≡ 0) × (f.chunks ≡ cs))
    ⊎ ((gone : List Buffer) × (c : Buffer) × (cs ≡ gone ++ (c ∷ f.chunks))
        × (cap_samples < length (queue f) + length (samples c)))

-- What is left of chunks, and of the samples `q` in them, after the oldest chunks went: `k` samples are gone.
abbrev pub IsCut : List Buffer → List ℤ → Fifo → Type 0
IsCut cs q f =
    IsFifo f
    × ((k : ℕ) × (queue f ≡ drop k q) × HadToGo cs k f)
    × ((length (queue f) ≤ cap_samples) ⊎ (length f.chunks ≤ 1))

-- The abstract source: the samples that wait, and whether it plays.
pub record Source : Type 0 where
  pub waiting : List ℤ
  pub plays : Bool

abbrev pub source : Fifo → Source
source f = record { waiting = queue f; plays = f.primed }

abbrev pub has_sound : List ℤ → Bool
has_sound [] = false
has_sound (s ∷ q) = true

-- What a source adds to the places: nothing while it waits for `prime` samples, then what waits, in order; it pauses
-- when nothing is left.
abbrev pub heard : ℕ → List ℤ → Source → List ℤ × Source
heard prime into s =
    let left = drop (length into) s.waiting in
    if not s.plays && ltb (length s.waiting) prime
    then (into, s)
    else (added into s.waiting, record { waiting = left; plays = has_sound left })

mix_starts :
    (primed : Bool) (cs : List Buffer) (offset size : ℕ) (into : List ℤ)
    → IsStart cs offset
    → IsStart (mix primed cs offset size into).1.chunks (mix primed cs offset size into).1.offset
unfolding mix
mix_starts primed [] offset size into h = h
mix_starts primed (c ∷ cs) offset size [] h = tt
mix_starts primed (c ∷ cs) offset size (x ∷ into) h =
    let r = read_chunk (drop offset c) (x ∷ into) in
    elim (Bool-cases (is_short r.bytes)) [
      | inl short ↦ rw short (mix_starts primed cs 0 (size - r.taken) r.places (later cs))
      | inr long ↦ rw long tt
    ]
  where
    later : (ds : List Buffer) → IsStart ds 0
    later [] = refl
    later (d ∷ ds) = tt

mix_plays :
    (primed : Bool) (cs : List Buffer) (offset size : ℕ) (into : List ℤ)
    → (mix primed cs offset size into).1.primed ≡ primed
unfolding mix
mix_plays primed [] offset size into = refl
mix_plays primed (c ∷ cs) offset size [] = refl
mix_plays primed (c ∷ cs) offset size (x ∷ into) =
    let r = read_chunk (drop offset c) (x ∷ into) in
    elim (Bool-cases (is_short r.bytes)) [
      | inl short ↦ rw short (mix_plays primed cs 0 (size - r.taken) r.places)
      | inr long ↦ rw long refl
    ]

silent : (q : List ℤ) (n : ℕ) → n ≡ length q → (n == 0) ≡ true → has_sound q ≡ false
silent [] n e h = refl
silent (s ∷ q) n e h = absurd (ground (arith, e, h))

sounding : (q : List ℤ) (n : ℕ) → n ≡ length q → (n == 0) ≡ false → has_sound q ≡ true
sounding [] n e h = absurd (ground (arith, e, h))
sounding (s ∷ q) n e h = refl

abbrev playing : List ℤ → Source
playing q = record { waiting = q; plays = has_sound q }

mix_primed-heard :
    (into : List ℤ) (f : Fifo)
    → IsFifo f
    → ((mix_primed into f).0 ≡ added into (queue f))
      × (source (mix_primed into f).1 ≡ playing (drop (length into) (queue f)))
      × IsFifo (mix_primed into f).1
unfolding mix_primed
mix_primed-heard into f is =
    let m = mix true f.chunks f.offset f.size into in
    let im = mix-IsMixed true f.chunks f.offset f.size into is.counts in
    let st = mix_starts true f.chunks f.offset f.size into is.starts in
    elim (Bool-cases (m.1.size == 0)) [
      | inl none_left ↦ rw none_left (
        im.0,
        ap (λ b. the_source (queue m.1) b) (sym (silent (queue m.1) m.1.size im.2 none_left))
            ∙ ap playing im.1,
        record { counts = im.2; starts = st },
      )
      | inr more ↦ rw more (
        im.0,
        ap (λ b. the_source (queue m.1) b)
              (mix_plays true f.chunks f.offset f.size into
                ∙ sym (sounding (queue m.1) m.1.size im.2 more))
            ∙ ap playing im.1,
        record { counts = im.2; starts = st },
      )
    ]
  where
    the_source : List ℤ → Bool → Source
    the_source q b = record { waiting = q; plays = b }

-- Fifo implements the source: `mixInto` adds to the places what the source of the waiting samples adds, leaves the Fifo
-- of the source that is left, and keeps its counters right.
pub mix_into-heard :
    (prime : ℕ) (into : List ℤ) (f : Fifo)
    → IsFifo f
    → ((mix_into prime into f).0 ≡ (heard prime into (source f)).0)
      × (source (mix_into prime into f).1 ≡ (heard prime into (source f)).1)
      × IsFifo (mix_into prime into f).1
unfolding mix_into
mix_into-heard prime into f is =
    let same : ltb (length (queue f)) prime ≡ ltb f.size prime =
      ap (λ n. ltb n prime) (sym is.counts) in
    elim (Bool-cases (not f.primed && ltb f.size prime)) [
      | inl quiet ↦ rw (same, quiet) (refl, refl, is)
      | inr loud ↦ rw (same, loud) (mix_primed-heard into f is)
    ]
