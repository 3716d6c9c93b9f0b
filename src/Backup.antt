-- ===== src/Backup.antt =====
-- application/src/server/backup: the backups of a server. `adapters/mod.rs` looks for a backup in the
-- adapters, `manager.rs` caches what it finds, creates backups (`Create`) and restores them
-- (`Restore`). What the adapters answer is a `Storage`. A uuid is a number, and a time is in seconds.
pub mod Cache
pub mod Create
pub mod Restore
pub mod Find
mod Tests
use cyrogopus.Prelude.{
  ℕ, Bool, true, false, ◌||◌, ◌&&◌, List, [], ◌∷◌, Option, none, some, ◌==◌, ◌-◌, any, ltb,
  if◌then◌else◌, is_some,
}
use cyrogopus.Backup.Cache.{get, insert, retain}

pub data BackupAdapter : Type 0 where
  wings s3 ddup_bak btrfs zfs restic : BackupAdapter

abbrev pub variants : List BackupAdapter
variants = wings ∷ s3 ∷ ddup_bak ∷ btrfs ∷ zfs ∷ restic ∷ []

pub record Backup : Type 0 where
  pub uuid : ℕ
  pub adapter : BackupAdapter

-- What a search returns: an error, nothing, or a backup; the search of all adapters tells which.
pub data Found : Type 0 where
  failed absent : Found
  found : Backup → Found

pub data FoundIn : Type 0 where
  failed_in absent_in : FoundIn
  found_in : BackupAdapter → Backup → FoundIn

-- The adapters: `none` is the error of `exists`. A backup is browsed where it can be.
pub record Storage : Type 0 where
  pub exists : BackupAdapter → ℕ → Option Bool
  pub find : BackupAdapter → ℕ → Found
  pub can_browse : Backup → Bool

unfoldable pub exists_any_of : Storage → ℕ → List BackupAdapter → Option Bool
exists_any_of st u [] = some false
exists_any_of st u (a ∷ as_left) =
    let rest = exists_any_of st u as_left in
    elim (st.exists a u) [ none ↦ none | some true ↦ some true | some false ↦ rest ]

abbrev pub exists_any : Storage → ℕ → Option Bool
exists_any st u = exists_any_of st u variants

-- The search of all adapters does not ask the object storage.
abbrev pub find_in : Storage → BackupAdapter → ℕ → Found
find_in st s3 u = absent
find_in st a u = st.find a u

abbrev pub or_rest : BackupAdapter → Found → FoundIn → FoundIn
or_rest a failed rest = failed_in
or_rest a absent rest = rest
or_rest a (found b) rest = found_in a b

unfoldable pub find_all_of : Storage → ℕ → List BackupAdapter → FoundIn
find_all_of st u [] = absent_in
find_all_of st u (a ∷ as_left) = or_rest a (find_in st a u) (find_all_of st u as_left)

abbrev pub find_all : Storage → ℕ → FoundIn
find_all st u = find_all_of st u variants

-- Backups and browsed backups with the time of their last use, and the adapters that are known. A
-- browsed backup is the backup that it was made from.
pub record BackupManager : Type 0 where
  pub cached_backups : List (ℕ × (Backup × ℕ))
  pub cached_browse_backups : List (ℕ × (Backup × ℕ))
  pub cached_backup_adapters : List (ℕ × BackupAdapter)

unfoldable pub new : BackupManager
new = record { cached_backups = []; cached_browse_backups = []; cached_backup_adapters = [] }

abbrev is_recent : ℕ → ℕ × (Backup × ℕ) → Bool
is_recent now (u, (b, last_accessed)) = ltb (now - last_accessed) 300

-- One round of the task of `new`.
unfoldable pub sweep : BackupManager → ℕ → BackupManager
sweep m now = record m {
  cached_backups = retain (is_recent now) m.cached_backups;
  cached_browse_backups = retain (is_recent now) m.cached_browse_backups;
}

-- `backups` is the list of the server's configuration.
unfoldable pub fast_contains : BackupManager → List ℕ → ℕ → Bool
fast_contains m backups u = is_some (get u m.cached_backups) || any (λ v. v == u) backups

abbrev or_false : Option Bool → Bool
or_false none = false
or_false (some b) = b

unfoldable pub adapter_contains : Storage → BackupManager → ℕ → Bool
adapter_contains st m u = elim (get u m.cached_backup_adapters) [
  | some a ↦ or_false (st.exists a u)
  | none ↦ or_false (exists_any st u)
]

abbrev pub cache : BackupManager → ℕ → Backup → ℕ → BackupManager
cache m u b now = record m { cached_backups = insert u (b, now) m.cached_backups }

abbrev pub learn : BackupManager → ℕ → BackupAdapter → BackupManager
learn m u a = record m { cached_backup_adapters = insert u a m.cached_backup_adapters }

-- The part of `find` behind the caches.
abbrev pub after_all : BackupManager → ℕ → ℕ → FoundIn → BackupManager × Found
after_all m u now failed_in = (m, failed)
after_all m u now absent_in = (m, absent)
after_all m u now (found_in a b) = (learn (cache m u b now) u a, found b)

abbrev pub after_adapter : Storage → BackupManager → ℕ → ℕ → Found → BackupManager × Found
after_adapter st m u now failed = (m, failed)
after_adapter st m u now absent = after_all m u now (find_all st u)
after_adapter st m u now (found b) = (cache m u b now, found b)

abbrev pub with_adapter :
    Storage → BackupManager → ℕ → ℕ → Option BackupAdapter → BackupManager × Found
with_adapter st m u now (some a) = after_adapter st m u now (st.find a u)
with_adapter st m u now none = after_all m u now (find_all st u)

-- The backup of the cache, or what the search behind it answers.
abbrev pub cached_or :
    BackupManager → ℕ → ℕ → Option (Backup × ℕ) → BackupManager × Found → BackupManager × Found
cached_or m u now (some (b, last_accessed)) rest = (cache m u b now, found b)
cached_or m u now none rest = rest

unfoldable pub find : Storage → BackupManager → ℕ → ℕ → BackupManager × Found
find st m u now =
    cached_or m u now (get u m.cached_backups)
      (with_adapter st m u now (get u m.cached_backup_adapters))

abbrev pub after_find_adapter : BackupManager → ℕ → ℕ → Found → BackupManager × Found
after_find_adapter m u now failed = (m, failed)
after_find_adapter m u now absent = (m, absent)
after_find_adapter m u now (found b) = (cache m u b now, found b)

unfoldable pub find_adapter :
    Storage → BackupManager → BackupAdapter → ℕ → ℕ → BackupManager × Found
find_adapter st m a u now =
    cached_or m u now (get u m.cached_backups) (after_find_adapter m u now (st.find a u))

abbrev pub cache_browse : BackupManager → ℕ → Backup → ℕ → BackupManager
cache_browse m u b now = record m {
  cached_browse_backups = insert u (b, now) m.cached_browse_backups;
}

abbrev pub after_find : Storage → ℕ → ℕ → BackupManager × Found → BackupManager × Found
after_find st u now (m, failed) = (m, failed)
after_find st u now (m, absent) = (m, absent)
after_find st u now (m, found b) =
    if st.can_browse b then (cache_browse m u b now, found b) else (m, failed)

abbrev pub browsed_or :
    BackupManager → ℕ → ℕ → Option (Backup × ℕ) → BackupManager × Found → BackupManager × Found
browsed_or m u now (some (b, last_accessed)) rest = (cache_browse m u b now, found b)
browsed_or m u now none rest = rest

-- A browsed backup, by one caller at a time.
unfoldable pub browse : Storage → BackupManager → ℕ → ℕ → BackupManager × Found
browse st m u now =
    browsed_or m u now (get u m.cached_browse_backups) (after_find st u now (find st m u now))
