-- ===== src/Calls/Mixer/Clock.antt =====
-- The mixer keeps time: what it gives out is as long as the time that has passed.
use wa_logger.Base.{
  ℕ, ◌+◌, ◌-◌, ◌*◌, ◌/◌, ◌≡◌, refl, ap₂, inl, inr, Bool, true, Option, none, some, List, [], ◌∷◌,
  arith, length, drop, max, length-append, length-replicate, Bool-cases, ltb, ◌==◌, not, ◌&&◌,
  replicate,
}
use wa_logger.Crypto.Gcm.{Buffer}
use wa_logger.Calls.Mixer.{
  ℤ, pos, negsuc, Fifo, AudioMixer, read_chunk, is_short, mix, mix_primed, mix_into, write_clamped,
  written, tick, rate,
}

length-read_chunk :
    (bs : Buffer) (into : List ℤ)
    → length (read_chunk bs into).done + length (read_chunk bs into).places ≡ length into
unfolding read_chunk
length-read_chunk [] into = omega arith
length-read_chunk (b ∷ []) into = omega arith
length-read_chunk (lo ∷ hi ∷ bs) [] = omega arith
length-read_chunk (lo ∷ hi ∷ bs) (x ∷ into) = omega (arith, length-read_chunk bs into)

length-mix :
    (primed : Bool) (cs : List Buffer) (offset size : ℕ) (into : List ℤ)
    → length (mix primed cs offset size into).0 ≡ length into
unfolding mix
length-mix primed [] offset size into = refl
length-mix primed (c ∷ cs) offset size [] = refl
length-mix primed (c ∷ cs) offset size (x ∷ into) =
    let r = read_chunk (drop offset c) (x ∷ into) in
    let rest = mix primed cs 0 (size - r.taken) r.places in
    elim (Bool-cases (is_short r.bytes)) [
      | inl short ↦ rw short (
          omega (
            arith,
            length-append r.done rest.0,
            length-mix primed cs 0 (size - r.taken) r.places,
            length-read_chunk (drop offset c) (x ∷ into),
          ))
      | inr long ↦ rw long (
          omega
            (arith, length-append r.done r.places, length-read_chunk (drop offset c) (x ∷ into)))
    ]

length-mix_into :
    (prime : ℕ) (into : List ℤ) (f : Fifo) → length (mix_into prime into f).0 ≡ length into
unfolding mix_into mix_primed
length-mix_into prime into f = elim (Bool-cases (not f.primed && ltb f.size prime)) [
  | inl quiet ↦ rw quiet refl
  | inr loud ↦ rw loud (length-mix true f.chunks f.offset f.size into)
]

length-written : (vs : List ℤ) → length (written vs) ≡ 2 * length vs
unfolding write_clamped
length-written [] = omega arith
length-written (pos n ∷ vs) = ground (arith, length-written vs)
length-written (negsuc n ∷ vs) = ground (arith, length-written vs)

abbrev pub bytes_of : Option Buffer → ℕ
bytes_of none = 0
bytes_of (some b) = length b

-- The samples that are due by `now`, or were produced before.
abbrev pub due_by : ℕ → AudioMixer → ℕ
due_by now m = max m.produced ((now - m.t0) * 16)

tick_lem :
    (now : ℕ) (m : AudioMixer)
    → ((tick now m).1.produced ≡ due_by now m)
      × ((tick now m).1.t0 ≡ m.t0)
      × (bytes_of (tick now m).0 + 2 * m.produced ≡ 2 * due_by now m)
unfolding tick
tick_lem now m =
    let due = (now - m.t0) * rate / 1000 - m.produced in
    let peer = mix_into m.prime_samples (replicate due (pos 0)) m.peer in
    let own = mix_into m.prime_samples peer.0 m.own in
    let long : length (written own.0) ≡ 2 * due = omega (
      arith,
      length-written own.0,
      length-mix_into m.prime_samples peer.0 m.own,
      length-mix_into m.prime_samples (replicate due (pos 0)) m.peer,
      length-replicate due (pos 0),
    ) in
    elim (Bool-cases (due == 0)) [
      | inl early ↦ rw early (ground (arith, early), refl, ground (arith, early))
      | inr on ↦ rw on (ground (arith, on), refl, ground (arith, on, long))
    ]

-- What ticks at these times give out, in bytes, and the mixer after them.
abbrev pub ticks : List ℕ → AudioMixer → ℕ × AudioMixer
ticks [] m = (0, m)
ticks (now ∷ nows) m =
    let t = tick now m in let rest = ticks nows t.1 in (bytes_of t.0 + rest.0, rest.1)

-- The samples that are due by the latest of the times.
abbrev pub due : List ℕ → ℕ → ℕ → ℕ
due [] t0 produced = produced
due (now ∷ nows) t0 produced = due nows t0 (max produced ((now - t0) * 16))

-- Whenever the ticks come and whatever has arrived: what they give out, with what was produced before, is two bytes for
-- each of the 16 samples of every millisecond from the start to the latest tick.
pub ticks_total :
    (nows : List ℕ) (m : AudioMixer)
    → (ticks nows m).0 + 2 * m.produced ≡ 2 * due nows m.t0 m.produced
ticks_total [] m = omega arith
ticks_total (now ∷ nows) m =
    let l = tick_lem now m in
    omega (arith, ticks_total nows (tick now m).1, ap₂ (due nows) l.1 l.0, l.0, l.2)
