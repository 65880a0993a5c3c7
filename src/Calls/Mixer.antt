-- ===== src/Calls/Mixer.antt =====
-- The audio of server/src/wa/recfmt.ts: Fifo and AudioMixer, which mix what both sides send into one stream of samples
-- of 16 bits. Time comes from the caller.
pub mod Queue
pub mod Clock
pub mod Waiting
mod Tests
use wa_logger.Base.{
  ℕ, zero, suc, ◌+◌, ◌-◌, ◌*◌, ◌/◌, ◌%◌, Bool, true, false, ◌&&◌, not, Option, none, some, List, [],
  ◌∷◌, ◌++◌, ltb, leb, ◌==◌, if◌then◌else◌, length, drop, replicate,
}
use wa_logger.Crypto.Gcm.{Buffer}

-- Integers over the native numbers: `negsuc n` is -1 - n.
pub data ℤ : Type 0 where
  pos negsuc : ℕ → ℤ

abbrev sub : ℕ → ℕ → ℤ
sub a b = if leb b a then pos (a - b) else negsuc (b - a - 1)

infixl 6 ◌+ℤ◌
unfoldable pub ◌+ℤ◌ : ℤ → ℤ → ℤ
pos a +ℤ pos b = pos (a + b)
pos a +ℤ negsuc b = sub a (b + 1)
negsuc a +ℤ pos b = sub b (a + 1)
negsuc a +ℤ negsuc b = negsuc (a + b + 1)

-- `readInt16LE`
unfoldable pub read_int16 : ℕ → ℕ → ℤ
read_int16 lo hi = let u = lo + 256 * hi in if ltb u 32768 then pos u else negsuc (65535 - u)

-- `Math.max(-32768, Math.min(32767, v))` and `writeInt16LE`
unfoldable pub write_clamped : ℤ → Buffer
write_clamped (pos n) = if ltb 32767 n then 255 ∷ 127 ∷ [] else (n % 256) ∷ (n / 256) ∷ []
write_clamped (negsuc n) =
    if ltb 32767 n then 0 ∷ 128 ∷ [] else ((65535 - n) % 256) ∷ ((65535 - n) / 256) ∷ []

abbrev pub rate : ℕ
rate = 16_000

abbrev pub cap_samples : ℕ
cap_samples = rate

-- `size` counts samples, `offset` the bytes that are consumed of the first chunk.
pub record Fifo : Type 0 where
  pub chunks : List Buffer
  pub offset : ℕ
  pub size : ℕ
  pub primed : Bool

abbrev pub no_sound : Fifo
no_sound = record { chunks = []; offset = 0; size = 0; primed = false }

-- The loop of `push`
unfoldable pub drop_oldest : Bool → List Buffer → ℕ → ℕ → Fifo
drop_oldest primed [] offset size = record {
  chunks = [];
  offset = offset;
  size = size;
  primed = primed;
}
drop_oldest primed (c ∷ []) offset size = record {
  chunks = c ∷ [];
  offset = offset;
  size = size;
  primed = primed;
}
drop_oldest primed (c ∷ d ∷ cs) offset size =
    let rest = drop_oldest primed (d ∷ cs) 0 (size - (length c - offset) / 2) in
    if ltb cap_samples size
    then rest
    else record { chunks = c ∷ d ∷ cs; offset = offset; size = size; primed = primed }

-- `push`
unfoldable pub push : Buffer → Fifo → Fifo
unfolding drop_oldest
push pcm f = drop_oldest f.primed (f.chunks ++ (pcm ∷ [])) f.offset (f.size + length pcm / 2)

-- What the inner loop of `mixInto` makes of the bytes of a chunk that are left and of the places that are left:
-- what it wrote, the places and the bytes behind, and the number of samples.
pub record Reading : Type 0 where
  pub done : List ℤ
  pub places : List ℤ
  pub bytes : Buffer
  pub taken : ℕ

unfoldable pub read_chunk : Buffer → List ℤ → Reading
read_chunk (lo ∷ hi ∷ bs) (x ∷ into) =
    let r = read_chunk bs into in
    record {
      done = (x +ℤ read_int16 lo hi) ∷ r.done;
      places = r.places;
      bytes = r.bytes;
      taken = suc r.taken;
    }
read_chunk bs into = record { done = []; places = into; bytes = bs; taken = 0 }

-- `this.offset + 1 >= c.length`
abbrev pub is_short : Buffer → Bool
is_short [] = true
is_short (b ∷ []) = true
is_short (b ∷ c ∷ bs) = false

-- The outer loop of `mixInto`, with `n` the length of `into`, as `tick` calls it.
unfoldable pub mix : Bool → List Buffer → ℕ → ℕ → List ℤ → List ℤ × Fifo
mix primed [] offset size into =
    (into, record { chunks = []; offset = offset; size = size; primed = primed })
mix primed (c ∷ cs) offset size [] =
    ([], record { chunks = c ∷ cs; offset = offset; size = size; primed = primed })
mix primed (c ∷ cs) offset size (x ∷ into) =
    let r = read_chunk (drop offset c) (x ∷ into) in
    let rest = mix primed cs 0 (size - r.taken) r.places in
    if is_short r.bytes then (r.done ++ rest.0, rest.1) else (
      r.done ++ r.places,
      record {
        chunks = c ∷ cs;
        offset = offset + 2 * r.taken;
        size = size - r.taken;
        primed = primed;
      },
    )

-- `mixInto` once the source is primed
unfoldable pub mix_primed : List ℤ → Fifo → List ℤ × Fifo
unfolding mix
mix_primed into f =
    let r = mix true f.chunks f.offset f.size into in
    (r.0, if r.1.size == 0 then record r.1 { primed = false } else r.1)

-- `mixInto`
unfoldable pub mix_into : ℕ → List ℤ → Fifo → List ℤ × Fifo
unfolding mix_primed
mix_into prime into f = if not f.primed && ltb f.size prime then (into, f) else mix_primed into f

pub record AudioMixer : Type 0 where
  pub t0 : ℕ
  pub prime_samples : ℕ
  pub peer : Fifo
  pub own : Fifo
  pub produced : ℕ

abbrev pub written : List ℤ → Buffer
written [] = []
written (v ∷ vs) = write_clamped v ++ written vs

-- `tick`; `none` is null. The rate is 16 samples in a millisecond, so nothing is rounded.
unfoldable pub tick : ℕ → AudioMixer → Option Buffer × AudioMixer
unfolding mix_into
tick now m =
    let due = (now - m.t0) * rate / 1000 - m.produced in
    let peer = mix_into m.prime_samples (replicate due (pos 0)) m.peer in
    let own = mix_into m.prime_samples peer.0 m.own in
    if due == 0 then (none, m) else (
      some (written own.0),
      record m { peer = peer.1; own = own.1; produced = m.produced + due },
    )
