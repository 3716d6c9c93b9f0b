-- ===== src/Writer/Tests.antt =====
-- Runs of a writer on an empty filesystem.
use cyrogopus.Prelude.{List, [], ◌∷◌, none, some}
use cyrogopus.Prelude.Int.{pos}
use cyrogopus.Usage.{fresh}
use cyrogopus.Filesystem.{Filesystem}
use cyrogopus.Writer.{FileSystemWriter, drop_writer}
use cyrogopus.Writer
use cyrogopus.Writer.Run.{Call, write, seek}

abbrev empty_fs : Filesystem
empty_fs = record { disk_limit = pos 0; disk_usage_cached = 7; disk_usage = fresh }

-- A write, a step back, a write over it, and one that charges.
abbrev calls : List Call
calls =
    write (some 600000)
    ∷ seek (some 0)
    ∷ write (some 600100)
    ∷ write none
    ∷ write (some 500000)
    ∷ []
