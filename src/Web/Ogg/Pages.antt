-- ===== src/Web/Ogg/Pages.antt =====
-- A reader of Ogg pages, and what it reads of those that are written.
use wa_logger.Base.{
  ℕ, zero, suc, ◌+◌, ◌-◌, ◌*◌, ◌/◌, ◌%◌, ◌≤◌, ◌<◌, ◌≡◌, refl, ap, ap₂, ◌∙◌, true, false, Option,
  none, some, List, [], ◌∷◌, ◌++◌, if◌then◌else◌, leb, ◌==◌, ==_iff, length, take, drop,
  length-append, take-append_length, drop-append_length, take-append-drop, length-take, length-drop,
  inl, inr, Bool-cases, arith,
}
use wa_logger.Http.Zip.{Buffer, flat}
use wa_logger.Http.Zip.Archive.{byte_at, u32}
use wa_logger.Web.Ogg.{
  crc, lace, lacing_of, page_with, page, samples, pages_from, ogg_pages, audio_pages, head_or, tags,
  last_flag,
}
use wa_logger.Web.Ogg.Checksum.{ogg_crc, crc-ogg_crc, sum_lt}

-- The packets that a segment table cuts out of the bytes behind it; `n` bytes belong to the next already.
unfoldable pub unlace : List ℕ → ℕ → Buffer → List Buffer
unlace [] n b = []
unlace (l ∷ ls) n b =
    let open_packet = unlace ls (n + l) b in
    let rest = unlace ls 0 (drop (n + l) b) in
    if l == 255 then open_packet else take (n + l) b ∷ rest

-- The bytes with the checksum field set to 0.
unfoldable pub unsigned : Buffer → Buffer
unsigned b = take 22 b ++ (0 ∷ 0 ∷ 0 ∷ 0 ∷ drop 26 b)

-- The packets of a page, when its checksum is right.
unfoldable pub read_page : Buffer → Option (List Buffer)
read_page b =
    if u32 22 b == ogg_crc (unsigned b)
    then some (unlace (take (byte_at 26 b) (drop 27 b)) 0 (drop (byte_at 26 b) (drop 27 b)))
    else none

unlace-lace :
    (fuel n k : ℕ) (ls : List ℕ) (b : Buffer)
    → n ≤ fuel
    → unlace (lace fuel n ++ ls) k b ≡ take (k + n) b ∷ unlace ls 0 (drop (k + n) b)
unfolding unlace lace
unlace-lace zero n k ls b h = let short : (n == 255) ≡ false = ground (arith, h) in rw short
unlace-lace (suc fuel) n k ls b h = elim (Bool-cases (leb 255 n)) [
  | inl long ↦
      let sum : (k + 255) + (n - 255) ≡ k + n = ground (arith, long) in
      rw (lace, long)
        (unlace-lace fuel (n - 255) (k + 255) ls b (omega (arith, h))
          ∙ ap (λ m. take m b ∷ unlace ls 0 (drop m b)) sum)
  | inr small ↦
      let short : (n == 255) ≡ false = ground (arith, small, ==_iff n 255) in
      rw (lace, small, unlace, short)
]

unlace-lacing_of : (ps : List Buffer) → unlace (lacing_of ps) 0 (flat ps) ≡ ps
unfolding lacing_of unlace
unlace-lacing_of [] = refl
unlace-lacing_of (p ∷ ps) =
    unlace-lace (length p) (length p) 0 (lacing_of ps) (p ++ flat ps) (omega arith)
    ∙ ap₂ (λ a l. a ∷ l) (take-append_length (0 + length p) p (flat ps) (omega arith))
        (ap (unlace (lacing_of ps) 0) (drop-append_length (0 + length p) p (flat ps) (omega arith))
          ∙ unlace-lacing_of ps)

checksum_read :
    (sum : ℕ) (ps : List Buffer) (granule serial seq flags : ℕ)
    → sum < 4_294_967_296
    → u32 22 (page_with sum ps granule serial seq flags) ≡ sum
unfolding u32 byte_at page_with
checksum_read sum ps granule serial seq flags h = omega (arith, h)

unsigned-page_with :
    (sum : ℕ) (ps : List Buffer) (granule serial seq flags : ℕ)
    → unsigned (page_with sum ps granule serial seq flags) ≡ page_with 0 ps granule serial seq flags
unfolding unsigned page_with
unsigned-page_with sum ps granule serial seq flags = refl

segments_read :
    (sum : ℕ) (ps : List Buffer) (granule serial seq flags : ℕ)
    → byte_at 26 (page_with sum ps granule serial seq flags) ≡ length (lacing_of ps) % 256
unfolding byte_at page_with
segments_read sum ps granule serial seq flags = refl

page_tail :
    (sum : ℕ) (ps : List Buffer) (granule serial seq flags : ℕ)
    → drop 27 (page_with sum ps granule serial seq flags) ≡ lacing_of ps ++ flat ps
unfolding page_with
page_tail sum ps granule serial seq flags = refl

-- A page with at most 255 segments is read back: its checksum is right, and its packets are those that
-- were written.
pub read_page-page :
    (ps : List Buffer) (granule serial seq flags : ℕ)
    → length (lacing_of ps) ≤ 255
    → read_page (page ps granule serial seq flags) ≡ some ps
unfolding read_page page
read_page-page ps granule serial seq flags h =
    let zeroed = page_with 0 ps granule serial seq flags in
    let sum = crc zeroed in
    let n = length (lacing_of ps) in
    let fits : n % 256 ≡ n = omega (arith, h) in
    let right : (sum == ogg_crc zeroed) ≡ true =
      (==_iff sum (ogg_crc zeroed)).1 (crc-ogg_crc zeroed) in
    rw (
      page,
      read_page,
      checksum_read sum ps granule serial seq flags (sum_lt zeroed),
      unsigned-page_with sum ps granule serial seq flags,
      right,
      segments_read sum ps granule serial seq flags,
      page_tail sum ps granule serial seq flags,
      fits,
      take-append_length n (lacing_of ps) (flat ps) refl,
      drop-append_length n (lacing_of ps) (flat ps) refl,
      unlace-lacing_of ps,
    )

-- Packets of less than 1275 bytes, which take five segments at most.
abbrev pub AreShort : List Buffer → Type 0
AreShort [] = Unit
AreShort (p ∷ ps) = (length p < 1275) × AreShort ps

take-AreShort : (n : ℕ) (ps : List Buffer) → AreShort ps → AreShort (take n ps)
take-AreShort zero ps h = tt
take-AreShort (suc n) [] h = tt
take-AreShort (suc n) (p ∷ ps) (h, t) = (h, take-AreShort n ps t)

drop-AreShort : (n : ℕ) (ps : List Buffer) → AreShort ps → AreShort (drop n ps)
drop-AreShort zero ps h = h
drop-AreShort (suc n) [] h = tt
drop-AreShort (suc n) (p ∷ ps) (h, t) = drop-AreShort n ps t

length-lace : (fuel n : ℕ) → length (lace fuel n) ≤ n / 255 + 1
unfolding lace
length-lace zero n = omega arith
length-lace (suc fuel) n = ground (arith, length-lace fuel (n - 255))

length-lacing_of : (ps : List Buffer) → AreShort ps → length (lacing_of ps) ≤ 5 * length ps
unfolding lacing_of
length-lacing_of [] h = omega arith
length-lacing_of (p ∷ ps) (h, t) = omega (
  arith,
  h,
  length-append (lace (length p) (length p)) (lacing_of ps),
  length-lace (length p) (length p),
  length-lacing_of ps t,
)

joined : Option (List Buffer) → Option (List Buffer) → Option (List Buffer)
joined none rest = none
joined (some ps) none = none
joined (some ps) (some rest) = some (ps ++ rest)

-- The packets of pages, one after the other.
unfoldable pub read_pages : List Buffer → Option (List Buffer)
unfolding joined
read_pages [] = some []
read_pages (p ∷ ps) = joined (read_page p) (read_pages ps)

pages_from_lem :
    (fuel granule serial seq : ℕ) (ps : List Buffer)
    → length ps ≤ fuel
    → AreShort ps
    → read_pages (pages_from fuel granule serial seq ps) ≡ some ps
unfolding read_pages pages_from
pages_from_lem zero granule serial seq [] l h = refl
pages_from_lem zero granule serial seq (p ∷ ps) l h = absurd (omega (arith, l))
pages_from_lem (suc fuel) granule serial seq [] l h = refl
pages_from_lem (suc fuel) granule serial seq (p ∷ ps) l h =
    let batch = take 50 (p ∷ ps) in
    let rest = drop 50 (p ∷ ps) in
    let next = granule + samples batch in
    let few : length (lacing_of batch) ≤ 255 =
      omega
        (arith, length-lacing_of batch (take-AreShort 50 (p ∷ ps) h), length-take 50 (p ∷ ps)) in
    ap₂ joined (read_page-page batch next serial seq (last_flag rest) few) (
      pages_from_lem fuel next serial (seq + 1) rest (omega (arith, l, length-drop 50 (p ∷ ps)))
        (drop-AreShort 50 (p ∷ ps) h))
    ∙ ap some (take-append-drop 50 (p ∷ ps))

audio_pages_lem :
    (serial : ℕ) (ps : List Buffer) → AreShort ps → read_pages (audio_pages serial ps) ≡ some ps
unfolding read_pages lacing_of
audio_pages_lem serial [] h = ap₂ joined (read_page-page [] 0 serial 2 4 (omega arith)) refl
audio_pages_lem serial (p ∷ ps) h =
    pages_from_lem (length (p ∷ ps)) 0 serial 2 (p ∷ ps) (omega arith) h

tags_short : length tags < 1275
unfolding tags
tags_short = omega arith

-- The pages that `oggOpus` writes for a head and packets of less than 1275 bytes hold the head, the tags and then
-- exactly those packets in their order, each page with the checksum that the division by 0x04c11db7 leaves.
pub read_pages-ogg_pages :
    (serial : ℕ) (head : Option Buffer) (ps : List Buffer)
    → length (head_or head) < 1275
    → AreShort ps
    → read_pages (ogg_pages serial head ps) ≡ some (head_or head ∷ tags ∷ ps)
unfolding read_pages ogg_pages
read_pages-ogg_pages serial head ps l h =
    let small : length (lacing_of (head_or head ∷ [])) ≤ 255 =
      omega (arith, length-lacing_of (head_or head ∷ []) (l, tt)) in
    let tag : length (lacing_of (tags ∷ [])) ≤ 255 =
      omega (arith, length-lacing_of (tags ∷ []) (tags_short, tt)) in
    ap₂ joined (read_page-page (head_or head ∷ []) 0 serial 0 2 small)
      (ap₂ joined (read_page-page (tags ∷ []) 0 serial 1 0 tag) (audio_pages_lem serial ps h))
