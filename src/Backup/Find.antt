-- ===== src/Backup/Find.antt =====
-- application/src/server/backup/manager.rs: what the caches hold, and what a search answers.
use cyrogopus.Prelude.{
  ℕ, false, List, [], ◌∷◌, Option, none, some, ◌≡◌, refl, ◌⊎◌, inl, inr, arith, ◌==◌, All,
  Bool-cases,
}
use cyrogopus.Backup.{
  BackupAdapter, s3, wings, ddup_bak, btrfs, zfs, restic, variants, Backup, Found, failed, absent,
  found, FoundIn, failed_in, absent_in, found_in, Storage, find_in, find_all_of, BackupManager, new,
  sweep, find, browse, after_all, after_adapter, after_find, or_rest, with_adapter, cached_or,
  browsed_or,
}
use cyrogopus.Backup.Cache.{get, insert, retain-All}

-- The backup is in the storage under the uuid.
abbrev pub IsStored : Storage → ℕ → Backup → Type 0
IsStored st u b = (a : BackupAdapter) × (st.find a u ≡ found b)

abbrev pub IsEntry : Storage → ℕ × (Backup × ℕ) → Type 0
IsEntry st (u, (b, t)) = IsStored st u b

abbrev pub IsFaithful : Storage → BackupManager → Type 0
IsFaithful st m = All (IsEntry st) m.cached_backups × All (IsEntry st) m.cached_browse_backups

-- What an answer says of the storage: an error is one of an adapter's, or of the browsing; nothing
-- means that no adapter but the object storage has the backup.
abbrev pub IsAnswer : Storage → ℕ → Found → Type 0
IsAnswer st u failed =
    ((a : BackupAdapter) × (st.find a u ≡ failed))
    ⊎ ((b : Backup) × IsStored st u b × (st.can_browse b ≡ false))
IsAnswer st u absent = All (λ a. find_in st a u ≡ absent) variants
IsAnswer st u (found b) = IsStored st u b

get-All :
    (st : Storage) (u : ℕ) (xs : List (ℕ × (Backup × ℕ))) (b : Backup) (t : ℕ)
    → All (IsEntry st) xs
    → get u xs ≡ some (b, t)
    → IsStored st u b
unfolding get
get-All st u [] b t h e = absurd (ground (arith, e))
get-All st u ((v, (c, s)) ∷ xs) b t (x, h) e = elim (Bool-cases (v == u)) [
  | inl f ↦
      let same : v ≡ u = ground (arith, f) in
      let first : c ≡ b = ground (arith, e, f) in rw (← same, ← first) x
  | inr f ↦ get-All st u xs b t h (ground (arith, e, f))
]

cons-All :
    (st : Storage) (u : ℕ) (b : Backup) (t : ℕ) (xs : List (ℕ × (Backup × ℕ)))
    → IsStored st u b
    → All (IsEntry st) xs
    → All (IsEntry st) (insert u (b, t) xs)
cons-All st u b t xs s h = (s, retain-All (IsEntry st) _ xs h)

-- The search of a list of adapters.
abbrev IsAnswerOf : Storage → ℕ → List BackupAdapter → FoundIn → Type 0
IsAnswerOf st u adapters failed_in = (a : BackupAdapter) × (st.find a u ≡ failed)
IsAnswerOf st u adapters absent_in = All (λ a. find_in st a u ≡ absent) adapters
IsAnswerOf st u adapters (found_in a b) = st.find a u ≡ found b

-- What the search of all adapters gets from one, it gets from the storage.
find-failed :
    (st : Storage) (a : BackupAdapter) (u : ℕ) → find_in st a u ≡ failed → st.find a u ≡ failed
find-failed st wings u e = e
find-failed st s3 u e = absurd (ground (arith, e))
find-failed st ddup_bak u e = e
find-failed st btrfs u e = e
find-failed st zfs u e = e
find-failed st restic u e = e

find-found :
    (st : Storage) (a : BackupAdapter) (u : ℕ) (b : Backup)
    → find_in st a u ≡ found b
    → st.find a u ≡ found b
find-found st wings u b e = e
find-found st s3 u b e = absurd (ground (arith, e))
find-found st ddup_bak u b e = e
find-found st btrfs u b e = e
find-found st zfs u b e = e
find-found st restic u b e = e

-- An adapter before those of a search.
or_rest-IsAnswerOf :
    (st : Storage) (u : ℕ) (a : BackupAdapter) (adapters : List BackupAdapter) (f : Found)
    (r : FoundIn)
    → find_in st a u ≡ f
    → IsAnswerOf st u adapters r
    → IsAnswerOf st u (a ∷ adapters) (or_rest a f r)
or_rest-IsAnswerOf st u a adapters failed r e h = (a, find-failed st a u e)
or_rest-IsAnswerOf st u a adapters absent failed_in e h = h
or_rest-IsAnswerOf st u a adapters absent absent_in e h = (e, h)
or_rest-IsAnswerOf st u a adapters absent (found_in c b) e h = h
or_rest-IsAnswerOf st u a adapters (found b) r e h = find-found st a u b e

find_all_of-IsAnswerOf :
    (st : Storage) (u : ℕ) (adapters : List BackupAdapter)
    → IsAnswerOf st u adapters (find_all_of st u adapters)
unfolding find_all_of
find_all_of-IsAnswerOf st u [] = tt
find_all_of-IsAnswerOf st u (a ∷ adapters) =
    or_rest-IsAnswerOf st u a adapters (find_in st a u) _ refl
      (find_all_of-IsAnswerOf st u adapters)

-- A faithful manager, and an answer to a search.
abbrev IsGood : Storage → ℕ → BackupManager × Found → Type 0
IsGood st u (m, f) = IsFaithful st m × IsAnswer st u f

after_all-IsGood :
    (st : Storage) (m : BackupManager) (u now : ℕ) (r : FoundIn)
    → IsFaithful st m
    → IsAnswerOf st u variants r
    → IsGood st u (after_all m u now r)
after_all-IsGood st m u now failed_in h a = (h, inl a)
after_all-IsGood st m u now absent_in h a = (h, a)
after_all-IsGood st m u now (found_in c b) (h, g) a =
    ((cons-All st u b now m.cached_backups (c, a) h, g), (c, a))

after_adapter-IsGood :
    (st : Storage) (m : BackupManager) (u now : ℕ) (a : BackupAdapter) (f : Found)
    → IsFaithful st m
    → st.find a u ≡ f
    → IsGood st u (after_adapter st m u now f)
after_adapter-IsGood st m u now a failed h e = (h, inl (a, e))
after_adapter-IsGood st m u now a absent h e =
    after_all-IsGood st m u now _ h (find_all_of-IsAnswerOf st u variants)
after_adapter-IsGood st m u now a (found b) (h, g) e =
    ((cons-All st u b now m.cached_backups (a, e) h, g), (a, e))

with_adapter-IsGood :
    (st : Storage) (m : BackupManager) (u now : ℕ) (o : Option BackupAdapter)
    → IsFaithful st m
    → IsGood st u (with_adapter st m u now o)
with_adapter-IsGood st m u now none h =
    after_all-IsGood st m u now _ h (find_all_of-IsAnswerOf st u variants)
with_adapter-IsGood st m u now (some a) h = after_adapter-IsGood st m u now a (st.find a u) h refl

cached_or-IsGood :
    (st : Storage) (m : BackupManager) (u now : ℕ) (o : Option (Backup × ℕ))
    (rest : BackupManager × Found)
    → IsFaithful st m
    → get u m.cached_backups ≡ o
    → IsGood st u rest
    → IsGood st u (cached_or m u now o rest)
cached_or-IsGood st m u now none rest h e good = good
cached_or-IsGood st m u now (some (b, t)) rest (h, g) e good =
    let stored = get-All st u m.cached_backups b t h e in
    ((cons-All st u b now m.cached_backups stored h, g), stored)

find-IsGood :
    (st : Storage) (m : BackupManager) (u now : ℕ) → IsFaithful st m → IsGood st u (find st m u now)
unfolding find
find-IsGood st m u now h =
    cached_or-IsGood st m u now (get u m.cached_backups) _ h refl
      (with_adapter-IsGood st m u now (get u m.cached_backup_adapters) h)

after_find-IsGood :
    (st : Storage) (u now : ℕ) (r : BackupManager × Found)
    → IsGood st u r
    → IsGood st u (after_find st u now r)
after_find-IsGood st u now (m, failed) h = h
after_find-IsGood st u now (m, absent) h = h
after_find-IsGood st u now (m, found b) ((h, g), stored) = elim (Bool-cases (st.can_browse b)) [
  | inl e ↦ rw e ((h, cons-All st u b now m.cached_browse_backups stored g), stored)
  | inr e ↦ rw e ((h, g), inr (b, stored, e))
]

browsed_or-IsGood :
    (st : Storage) (m : BackupManager) (u now : ℕ) (o : Option (Backup × ℕ))
    (rest : BackupManager × Found)
    → IsFaithful st m
    → get u m.cached_browse_backups ≡ o
    → IsGood st u rest
    → IsGood st u (browsed_or m u now o rest)
browsed_or-IsGood st m u now none rest h e good = good
browsed_or-IsGood st m u now (some (b, t)) rest (h, g) e good =
    let stored = get-All st u m.cached_browse_backups b t g e in
    ((h, cons-All st u b now m.cached_browse_backups stored g), stored)

-- The searches of the manager.
pub data Search : Type 0 where
  find_backup browse_backup : Search

unfoldable pub search_for : Storage → Search → BackupManager → ℕ → ℕ → BackupManager × Found
search_for st find_backup m u now = find st m u now
search_for st browse_backup m u now = browse st m u now

-- The manager after searches at their times, each after a round of the sweep.
unfoldable pub run : Storage → List (Search × ℕ × ℕ) → BackupManager
run st [] = new
run st ((s, u, now) ∷ before) = (search_for st s (sweep (run st before) now) u now).0

search_for-IsGood :
    (st : Storage) (s : Search) (m : BackupManager) (u now : ℕ)
    → IsFaithful st m
    → IsGood st u (search_for st s m u now)
unfolding search_for browse
search_for-IsGood st find_backup m u now h = find-IsGood st m u now h
search_for-IsGood st browse_backup m u now h =
    browsed_or-IsGood st m u now (get u m.cached_browse_backups) _ h refl
      (after_find-IsGood st u now (find st m u now) (find-IsGood st m u now h))

sweep-IsFaithful :
    (st : Storage) (m : BackupManager) (now : ℕ) → IsFaithful st m → IsFaithful st (sweep m now)
unfolding sweep
sweep-IsFaithful st m now (h, g) = (retain-All (IsEntry st) _ _ h, retain-All (IsEntry st) _ _ g)

run-IsFaithful : (st : Storage) (before : List (Search × ℕ × ℕ)) → IsFaithful st (run st before)
unfolding run new
run-IsFaithful st [] = (tt, tt)
run-IsFaithful st ((s, u, now) ∷ before) =
    (search_for-IsGood st s _ u now (sweep-IsFaithful st _ now (run-IsFaithful st before))).0

-- After any searches of a storage that stays the same, with a sweep of the caches before each, a
-- search answers by the storage: a backup is one that some adapter finds under the uuid, nothing
-- means that every adapter but the object storage has nothing, and an error is that of an adapter,
-- or a stored backup cannot be browsed.
pub run-IsAnswer :
    (st : Storage) (before : List (Search × ℕ × ℕ)) (s : Search) (u now : ℕ)
    → IsAnswer st u (search_for st s (run st before) u now).1
run-IsAnswer st before s u now =
    (search_for-IsGood st s (run st before) u now (run-IsFaithful st before)).1
