-- ===== src/Http/Zip/Tests.antt =====
-- A run of the ZIP writer, and the theorem at it.
use wa_logger.Base.{ℕ, ◌+◌, ◌≡◌, refl, Option, none, some, List, [], ◌∷◌, map}
use wa_logger.Http.Zip.{Buffer, LocalTime, ZipEntry, zip_stream, add_entries, add_entry}
use wa_logger.Http.Zip.Archive.{unzip}
use wa_logger.Http.Zip.Reading.{content_of, unzip-zip_stream}

abbrev sum_of : Buffer → ℕ → ℕ
sum_of [] n = n
sum_of (b ∷ bs) n = b + sum_of bs n

abbrev noon : LocalTime
noon = record { year = 2024; month = 5; day = 17; hours = 12; minutes = 0; seconds = 30 }

abbrev photos : List ZipEntry
photos =
    record { name = 97 ∷ []; mtime = noon; content = (1 ∷ 2 ∷ []) ∷ (3 ∷ []) ∷ [] }
    ∷ record { name = 98 ∷ 99 ∷ []; mtime = noon; content = [] }
    ∷ []

abbrev or_empty : Option Buffer → Buffer
or_empty none = []
or_empty (some b) = b

abbrev archive : Buffer
archive = or_empty (zip_stream sum_of photos)

archive_written : zip_stream sum_of photos ≡ some archive
unfolding zip_stream add_entries add_entry
archive_written = refl

unzip-zip_stream_example : unzip archive ≡ map content_of photos
unzip-zip_stream_example = unzip-zip_stream sum_of photos archive archive_written
