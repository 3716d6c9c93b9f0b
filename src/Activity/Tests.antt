-- ===== src/Activity/Tests.antt =====
-- A merge of two writes, and two more from two minutes later on.
use cyrogopus.Prelude.{ℕ, ◌*◌, ◌^◌, String, [], ◌∷◌, none, some, ◌≡◌, refl, arith}
use cyrogopus.Activity.{Activity, array, sftp_write, merge, is_sftp_event}
use cyrogopus.Activity.Merge.{joined, merge-run}

abbrev written : ℕ → String → Activity
written second file = record {
  user = some 1;
  event = sftp_write;
  metadata = some (record { files = some (array (file ∷ [])); directory = none; rest = "" });
  ip = none;
  timestamp = second * 10 ^ 9;
}

-- "a" and "b" are lost.
merge-run_example :
    merge (written 0 "a" ∷ written 30 "b" ∷ written 120 "c" ∷ written 150 "d" ∷ [])
    ≡ joined (written 120 "c") (written 150 "d" ∷ []) ∷ []
unfolding is_sftp_event
merge-run_example =
    merge-run sftp_write (some 1) (written 0 "a") (written 120 "c") (written 30 "b" ∷ [])
      (written 150 "d" ∷ []) refl (refl, refl, refl) ((refl, refl, refl), omega arith, tt)
      (refl, refl, refl) (omega arith) ((refl, refl, refl), omega arith, tt)
