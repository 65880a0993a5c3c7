-- ===== src/Web/Ogg/Tests.antt =====
-- Runs of the Ogg writer, and the theorems at them.
use wa_logger.Base.{◌≡◌, ◌≤◌, ◌<◌, refl, none, some, List, [], ◌∷◌, length, replicate, arith}
use wa_logger.Http.Zip.{Buffer}
use wa_logger.Web.Ogg.{
  opus_packet_samples, lace, lacing_of, head_or, tags, ogg_pages, crc, crc_from, crc_entry,
  table_rounds, xor_bits, default_head,
}
use wa_logger.Web.Ogg.Pages.{AreShort, read_pages, read_pages-ogg_pages}

-- One CELT frame of 20 ms, and a SILK packet with two frames of 60 ms.
samples_run : opus_packet_samples (248 ∷ 1 ∷ []) ≡ 960
unfolding opus_packet_samples
samples_run = refl

two_frames_run : opus_packet_samples (25 ∷ []) ≡ 5760
unfolding opus_packet_samples
two_frames_run = refl

-- The checksum of Ogg over one byte.
crc_run : crc (1 ∷ []) ≡ 79_764_919
unfolding crc crc_from crc_entry table_rounds xor_bits
crc_run = refl

abbrev packets : List Buffer
packets = (248 ∷ 1 ∷ 2 ∷ []) ∷ replicate 255 7 ∷ [] ∷ []

lacing_run : lacing_of packets ≡ 3 ∷ 255 ∷ 0 ∷ 0 ∷ []
unfolding lacing_of lace
lacing_run = refl

few_segments : length (lacing_of packets) ≤ 255
unfolding lacing_of lace
few_segments = omega arith

head_short : length (head_or none) < 1275
unfolding default_head
head_short = omega arith

packets_short : AreShort packets
packets_short = (omega arith, (omega arith, (omega arith, tt)))

read_pages-ogg_pages_example :
    read_pages (ogg_pages 5 none packets) ≡ some (head_or none ∷ tags ∷ packets)
read_pages-ogg_pages_example = read_pages-ogg_pages 5 none packets head_short packets_short
