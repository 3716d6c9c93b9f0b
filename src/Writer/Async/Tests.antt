-- ===== src/Writer/Async/Tests.antt =====
-- Runs of an AsyncFileSystemWriter on a filesystem with a limit of 4 MiB.
use cyrogopus.Prelude.{ℕ, true, some, List, [], ◌∷◌, String, ◌*◌}
use cyrogopus.Prelude.Int.{pos}
use cyrogopus.Usage.{fresh}
use cyrogopus.Filesystem.{Filesystem}
use cyrogopus.Writer.Async
use cyrogopus.Writer.Async.{pending, ready}
use cyrogopus.Writer.Async.Run.{Call, poll_write, start_seek, poll_complete}

abbrev disk : Filesystem
disk = record { disk_limit = pos (4 * (1024 * 1024)); disk_usage_cached = 0; disk_usage = fresh }

abbrev logs : List String
logs = "logs" ∷ []

-- Ten bytes, a seek back, and two of them again.
abbrev calls : List Call
calls =
    poll_write true (ready (some 10)) true
    ∷ start_seek
    ∷ poll_complete true (ready (some 3))
    ∷ poll_write true (ready (some 2)) true
    ∷ []

abbrev large : ℕ
large = 5 * (1024 * 1024)

abbrev medium : ℕ
medium = 2 * (1024 * 1024)
