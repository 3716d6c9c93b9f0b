-- ===== src/Activity/Merge.antt =====
-- application/src/server/activity.rs: the merge of activities of one key.
use cyrogopus.Prelude.{
  ℕ, ◌+◌, ◌-◌, ◌*◌, ◌^◌, ◌<◌, ◌≤◌, String, true, false, List, [], ◌∷◌, ◌++◌, Option, none, some,
  ◌≡◌, refl, sym, ap, ◌∙◌, map, arith, is_some, suc, ltb, length, if◌then◌else◌, Option-cases, inl,
  inr,
}
use mathlib.Core.List.{append_assoc, append-nil}
use cyrogopus.Activity.{
  ActivityEvent, Activity, sftp, key_of, Group, Sorted, add_to, sort_all, merge, finish, sort_by,
  is_close, same_user, is_sftp_event, Files, array, value, Metadata, files_of, all_files, set_files,
}

same_user_refl : (u : Option ℕ) → same_user u u ≡ true
same_user_refl none = refl
same_user_refl (some u) = ground arith

-- An activity of a user and an event, with files.
abbrev pub IsFiled : ActivityEvent → Option ℕ → Activity → Type 0
IsFiled e u x = (x.event ≡ e) × (x.user ≡ u) × (is_some (files_of x.metadata) ≡ true)

-- The nanoseconds between two activities.
abbrev pub distance : Activity → Activity → ℕ
distance a b = (a.timestamp - b.timestamp) + (b.timestamp - a.timestamp)

-- Such activities, each less than 61 seconds from the given one.
abbrev pub IsNear : ActivityEvent → Option ℕ → Activity → List Activity → Type 0
IsNear e u a [] = Unit
IsNear e u a (x ∷ xs) = IsFiled e u x × (distance x a < 61 * 10 ^ 9) × IsNear e u a xs

-- The same by what the code tests.
abbrev IsRun : ActivityEvent → Option ℕ → Activity → List Activity → Type 0
IsRun e u a [] = Unit
IsRun e u a (x ∷ xs) =
    (key_of x ≡ some (sftp e u)) × (is_close x.timestamp a.timestamp ≡ true) × IsRun e u a xs

key_of-IsFiled :
    (e : ActivityEvent) (u : Option ℕ) (x : Activity)
    → is_sftp_event e ≡ true
    → IsFiled e u x
    → key_of x ≡ some (sftp e u)
unfolding key_of
key_of-IsFiled e u x s (event, user, filed) = rw (event, user, filed, s) refl

is_close-near :
    (x a : Activity) → distance x a < 61 * 10 ^ 9 → is_close x.timestamp a.timestamp ≡ true
is_close-near x a h = ground (arith, h)

is_close-far :
    (x a : Activity) → 61 * 10 ^ 9 ≤ distance x a → is_close x.timestamp a.timestamp ≡ false
is_close-far x a h = ground (arith, h)

IsNear-IsRun :
    (e : ActivityEvent) (u : Option ℕ) (a : Activity) (xs : List Activity)
    → is_sftp_event e ≡ true
    → IsNear e u a xs
    → IsRun e u a xs
IsNear-IsRun e u a [] s h = tt
IsNear-IsRun e u a (x ∷ xs) s (filed, near, rest) =
    (key_of-IsFiled e u x s filed, is_close-near x a near, IsNear-IsRun e u a xs s rest)

-- The files of the arrays of some activities, in order.
abbrev array_in : Option Files → List String
array_in none = []
array_in (some (array fs)) = fs
array_in (some (value v)) = []

abbrev pub listed : List Activity → List String
listed [] = []
listed (x ∷ xs) = array_in (files_of x.metadata) ++ listed xs

abbrev listing : List String → Option Metadata → Option Metadata
listing fs none = none
listing fs (some m) = some (record m { files = some (array fs) })

-- One activity in the place of a first one and later ones: the first, with the files of all.
abbrev pub joined : Activity → List Activity → Activity
joined b [] = b
joined b (y ∷ ys) = record b { metadata = listing (listed (b ∷ y ∷ ys)) b.metadata }

all_files-listed : (xs : List Activity) → all_files xs ≡ listed xs
unfolding all_files
all_files-listed [] = refl
all_files-listed (x ∷ xs) = elim (Option-cases (files_of x.metadata)) [
  | inl e ↦ ground (arith, e, all_files-listed xs)
  | inr (array fs, e) ↦ ground (arith, e, all_files-listed xs)
  | inr (value v, e) ↦ ground (arith, e, all_files-listed xs)
]

set_files-listing :
    (fs : List String) (o : Option Metadata)
    → is_some (files_of o) ≡ true
    → set_files fs o ≡ listing fs o
set_files-listing fs none h = refl
set_files-listing fs (some m) h = elim (Option-cases m.files) [
  | inl e ↦ ground (arith, h, e)
  | inr (f, e) ↦ rw e refl
]

two_or_more : (n : ℕ) → ltb 1 (suc (suc n)) ≡ true
two_or_more n = ground arith

finish-joined :
    (e : ActivityEvent) (u : Option ℕ) (b : Activity) (ys : List Activity)
    → IsFiled e u b
    → finish (record { key = sftp e u; existing = b; members = b ∷ ys }) ≡ joined b ys
unfolding finish
finish-joined e u b [] h = refl
finish-joined e u b (y ∷ ys) (event, user, filed) =
    ap (λ t. if t then record b { metadata = set_files (all_files (b ∷ y ∷ ys)) b.metadata } else b)
      (two_or_more (length ys))
    ∙ ap (λ m. record b { metadata = m })
        (ap (λ fs. set_files fs b.metadata) (all_files-listed (b ∷ y ∷ ys))
          ∙ set_files-listing (listed (b ∷ y ∷ ys)) b.metadata filed)

-- The state of the loop while all activities are of one sftp group.
abbrev pub one_group : ActivityEvent → Option ℕ → Activity → List Activity → Sorted
one_group e u a members = record {
  merged = [];
  sftp_events = record { key = sftp e u; existing = a; members = members } ∷ [];
  file_upload_events = [];
}

add_to-close :
    (e : ActivityEvent) (u : Option ℕ) (a x : Activity) (members : List Activity)
    → is_close x.timestamp a.timestamp ≡ true
    → add_to (sftp e u) x (record { key = sftp e u; existing = a; members = members } ∷ [])
      ≡ record { key = sftp e u; existing = a; members = members ++ x ∷ [] } ∷ []
unfolding add_to
add_to-close e u a x members close = rw (same_user_refl u, close) (ground arith)

add_to-far :
    (e : ActivityEvent) (u : Option ℕ) (a x : Activity) (members : List Activity)
    → is_close x.timestamp a.timestamp ≡ false
    → add_to (sftp e u) x (record { key = sftp e u; existing = a; members = members } ∷ [])
      ≡ record { key = sftp e u; existing = x; members = x ∷ [] } ∷ []
unfolding add_to
add_to-far e u a x members far = rw (same_user_refl u, far) (ground arith)

sort_by-one :
    (e : ActivityEvent) (u : Option ℕ) (x : Activity) (s : Sorted) (gs : List Group)
    → key_of x ≡ some (sftp e u)
    → add_to (sftp e u) x s.sftp_events ≡ gs
    → sort_by (key_of x) x s ≡ record s { sftp_events = gs }
sort_by-one e u x s gs k h = ap (λ o. sort_by o x s) k ∙ ap (λ es. record s { sftp_events = es }) h

sort_all-run :
    (e : ActivityEvent) (u : Option ℕ) (a : Activity) (members xs rest : List Activity)
    → IsRun e u a xs
    → sort_all (one_group e u a members) (xs ++ rest)
      ≡ sort_all (one_group e u a (members ++ xs)) rest
unfolding sort_all
sort_all-run e u a members [] rest h =
    ap (λ m. sort_all (one_group e u a m) rest) (sym (append-nil members))
sort_all-run e u a members (x ∷ xs) rest h =
    ap (λ s. sort_all s (xs ++ rest))
      (sort_by-one e u x (one_group e u a members) _ h.0 (add_to-close e u a x members h.1))
    ∙ (sort_all-run e u a (members ++ x ∷ []) xs rest h.2
        ∙ ap (λ m. sort_all (one_group e u a m) rest) (append_assoc members (x ∷ []) xs))

abbrev no_group : Sorted
no_group = record { merged = []; sftp_events = []; file_upload_events = [] }

-- The list that a merge makes of the loop's result.
abbrev finished : Sorted → List Activity
finished s = s.merged ++ map finish s.sftp_events ++ map finish s.file_upload_events

merge-run_lem :
    (e : ActivityEvent) (u : Option ℕ) (a b : Activity) (xs ys : List Activity)
    → key_of a ≡ some (sftp e u)
    → IsRun e u a xs
    → key_of b ≡ some (sftp e u)
    → is_close b.timestamp a.timestamp ≡ false
    → IsRun e u b ys
    → merge (a ∷ xs ++ b ∷ ys)
      ≡ finish (record { key = sftp e u; existing = b; members = b ∷ ys }) ∷ []
unfolding merge sort_all add_to
merge-run_lem e u a b xs ys ka ra kb far rb = ap finished (
    ap (λ s. sort_all s (xs ++ b ∷ ys)) (sort_by-one e u a no_group _ ka refl)
    ∙ (sort_all-run e u a (a ∷ []) xs (b ∷ ys) ra
        ∙ (ap (λ s. sort_all s ys)
              (sort_by-one e u b (one_group e u a (a ∷ xs)) _ kb (add_to-far e u a b (a ∷ xs) far))
            ∙ (ap (sort_all (one_group e u b (b ∷ []))) (sym (append-nil ys))
                ∙ sort_all-run e u b (b ∷ []) ys [] rb))))

-- Activities of one user and one sftp event, with files: those less than 61 seconds from the first,
-- then one that is 61 seconds or more from it, and those less than 61 seconds from that one. All
-- activities before that one are dropped. The merge leaves it alone, and where others follow it, in
-- place of its files the array of the files of its own array and of theirs, in order.
pub merge-run :
    (e : ActivityEvent) (u : Option ℕ) (a b : Activity) (xs ys : List Activity)
    → is_sftp_event e ≡ true
    → IsFiled e u a
    → IsNear e u a xs
    → IsFiled e u b
    → 61 * 10 ^ 9 ≤ distance b a
    → IsNear e u b ys
    → merge (a ∷ xs ++ b ∷ ys) ≡ joined b ys ∷ []
merge-run e u a b xs ys s fa near fb far later =
    merge-run_lem e u a b xs ys (key_of-IsFiled e u a s fa) (IsNear-IsRun e u a xs s near)
      (key_of-IsFiled e u b s fb) (is_close-far b a far) (IsNear-IsRun e u b ys s later)
    ∙ ap (λ x. x ∷ []) (finish-joined e u b ys fb)
