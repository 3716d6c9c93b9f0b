-- ===== src/Usage/Entry.antt =====
-- application/src/server/filesystem/usage.rs: lookups in the entries of a directory.
use cyrogopus.Prelude.{
  String, none, some, ◌≡◌, refl, arith, eq_iff, str_eq, str_eq_refl, if◌then◌else◌,
}
use cyrogopus.Usage.{DiskUsage, Entries, empty, entry, get_entry, insert_entry, remove_entry}

pub get-insert :
    (k j : String) (d : DiskUsage) (es : Entries)
    → get_entry j (insert_entry k d es) ≡ (if str_eq k j then some d else get_entry j es)
unfolding get_entry insert_entry
get-insert k j d empty = refl
get-insert k j d (entry i e es) =
    ground (arith, eq_iff k j, eq_iff i k, eq_iff i j, get-insert k j d es)

pub get-insert_self :
    (k : String) (d : DiskUsage) (es : Entries) → get_entry k (insert_entry k d es) ≡ some d
get-insert_self k d es = simp (get-insert, str_eq_refl)

pub get-remove :
    (k j : String) (es : Entries)
    → get_entry j (remove_entry k es) ≡ (if str_eq k j then none else get_entry j es)
unfolding get_entry remove_entry
get-remove k j empty = ground arith
get-remove k j (entry i e es) =
    ground (arith, get-remove k j es, eq_iff i k, eq_iff i j, eq_iff k j)

pub ruleset entry_laws = (get-insert, get-remove)
