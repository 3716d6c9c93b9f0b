-- ===== src/Filesystem/Tests.antt =====
-- Runs of the disk accounting on small filesystems.
use cyrogopus.Prelude.{true, false, ◌+◌, List, [], ◌∷◌, ◌≡◌, refl, arith, String}
use cyrogopus.Prelude.Int.{pos, negsuc}
use cyrogopus.Usage.{fresh, node, entry, empty}
use cyrogopus.Filesystem.{Filesystem, allocate_in_path_slice}
use cyrogopus.Filesystem.Limit.{Request, run, forced, IsWithin, run-IsWithin}

abbrev limited_fs : Filesystem
limited_fs = record { disk_limit = pos 100; disk_usage_cached = 10; disk_usage = fresh }

abbrev requests : List Request
requests =
    record { path = "world" ∷ []; delta = pos 60; ignorant = false }
    ∷ record { path = "logs" ∷ []; delta = pos 60; ignorant = false }
    ∷ record { path = "world" ∷ "region" ∷ []; delta = negsuc 8; ignorant = false }
    ∷ record { path = "renamed" ∷ []; delta = pos 70; ignorant = true }
    ∷ []

-- The second request is refused, and the last one passes the limit.
run-refusal : (run limited_fs requests).disk_usage_cached ≡ 131
unfolding run allocate_in_path_slice
run-refusal = refl

run-IsWithin_example : IsWithin 100 (100 + forced requests) (run limited_fs requests)
run-IsWithin_example =
    run-IsWithin 100 limited_fs requests (omega arith) (omega arith)
      (omega arith, (omega arith, (omega arith, (omega arith, tt)))) (refl, omega arith)

abbrev world : List String
world = "world" ∷ []

-- A world of 30 bytes, 20 of them in a region.
abbrev played : Filesystem
played = record {
  disk_limit = pos 0;
  disk_usage_cached = 30;
  disk_usage = node 0 (entry "world" (node 30 (entry "region" (node 20 empty) empty)) empty);
}
