-- ===== src/Calls/Mixer/Tests.antt =====
-- Runs of the mixer, and the theorems at them.
use wa_logger.Base.{◌+◌, ◌*◌, ◌≡◌, refl, true, [], ◌∷◌}
use wa_logger.Crypto.Gcm.{Buffer}
use wa_logger.Calls.Mixer.{
  pos, negsuc, ◌+ℤ◌, read_int16, write_clamped, Fifo, AudioMixer, no_sound, mix_into, mix_primed,
  mix, read_chunk, written,
}
use wa_logger.Calls.Mixer.Waiting.{IsFifo, source, heard, mix_into-heard}
use wa_logger.Calls.Mixer.Clock.{ticks, due, ticks_total}

-- The samples 1, -2 and 32767.
abbrev sound : Buffer
sound = 1 ∷ 0 ∷ 254 ∷ 255 ∷ 255 ∷ 127 ∷ []

abbrev heard_before : Fifo
heard_before = record { chunks = sound ∷ []; offset = 2; size = 2; primed = true }

heard_before-IsFifo : IsFifo heard_before
heard_before-IsFifo = record { counts = refl; starts = tt }

mix_into-heard_example :
    ((mix_into 960 (pos 5 ∷ pos 0 ∷ pos 0 ∷ []) heard_before).0
      ≡ (heard 960 (pos 5 ∷ pos 0 ∷ pos 0 ∷ []) (source heard_before)).0)
    × (source (mix_into 960 (pos 5 ∷ pos 0 ∷ pos 0 ∷ []) heard_before).1
        ≡ (heard 960 (pos 5 ∷ pos 0 ∷ pos 0 ∷ []) (source heard_before)).1)
    × IsFifo (mix_into 960 (pos 5 ∷ pos 0 ∷ pos 0 ∷ []) heard_before).1
mix_into-heard_example =
    mix_into-heard 960 (pos 5 ∷ pos 0 ∷ pos 0 ∷ []) heard_before heard_before-IsFifo

abbrev mixer : AudioMixer
mixer = record { t0 = 1000; prime_samples = 960; peer = heard_before; own = no_sound; produced = 0 }

ticks_total_example :
    (ticks (1001 ∷ 1003 ∷ 1002 ∷ []) mixer).0 + 2 * 0 ≡ 2 * due (1001 ∷ 1003 ∷ 1002 ∷ []) 1000 0
ticks_total_example = ticks_total (1001 ∷ 1003 ∷ 1002 ∷ []) mixer

mix_into_run :
    (mix_into 960 (pos 5 ∷ pos 0 ∷ pos 0 ∷ []) heard_before).0 ≡ pos 3 ∷ pos 32767 ∷ pos 0 ∷ []
unfolding mix_into mix_primed mix read_chunk read_int16 ◌+ℤ◌
mix_into_run = refl

write_clamped_run : written (negsuc 1 ∷ pos 40000 ∷ []) ≡ 254 ∷ 255 ∷ 255 ∷ 127 ∷ []
unfolding write_clamped
write_clamped_run = refl
