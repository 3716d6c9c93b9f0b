-- ===== src/Activity.antt =====
-- application/src/server/activity.rs: the log of what users did, and one round of the task that
-- merges it and sends it to the panel. A JSON value is opaque but for the arrays of files; a uuid is
-- a number and a time a number of nanoseconds. A hash map is the list of its groups, the indices of a
-- group are the activities that they point to, and `into_values` takes the groups in their order.
pub mod Merge
mod Tests
use cyrogopus.Prelude.{
  ℕ, ◌+◌, ◌-◌, ◌/◌, ◌^◌, String, Bool, true, false, not, List, [], ◌∷◌, ◌++◌, Option, none, some,
  ◌&&◌, ◌||◌, ◌==◌, leb, ltb, length, take, drop, map, str_eq, is_some, if◌then◌else◌,
}

pub data ActivityEvent : Type 0 where
  power_start power_stop power_restart power_kill console_command : ActivityEvent
  sftp_write sftp_create sftp_create_directory sftp_rename sftp_delete : ActivityEvent
  file_uploaded file_compress file_decompress file_create_directory file_write : ActivityEvent
  file_copy file_delete file_rename file_pull : ActivityEvent

unfoldable pub is_sftp_event : ActivityEvent → Bool
is_sftp_event sftp_write = true
is_sftp_event sftp_create = true
is_sftp_event sftp_create_directory = true
is_sftp_event sftp_rename = true
is_sftp_event sftp_delete = true
is_sftp_event _ = false

-- The derived `==`, through a number for each constructor.
abbrev pub tag : ActivityEvent → ℕ
tag power_start = 0
tag power_stop = 1
tag power_restart = 2
tag power_kill = 3
tag console_command = 4
tag sftp_write = 5
tag sftp_create = 6
tag sftp_create_directory = 7
tag sftp_rename = 8
tag sftp_delete = 9
tag file_uploaded = 10
tag file_compress = 11
tag file_decompress = 12
tag file_create_directory = 13
tag file_write = 14
tag file_copy = 15
tag file_delete = 16
tag file_rename = 17
tag file_pull = 18

-- The value under "files": an array, or another value.
pub data Files : Type 0 where
  array : List String → Files
  value : String → Files

-- `directory` is the one under "directory" where it is a string, and `rest` all other entries.
pub record Metadata : Type 0 where
  pub files : Option Files
  pub directory : Option String
  pub rest : String

pub record Activity : Type 0 where
  pub user : Option ℕ
  pub event : ActivityEvent
  pub metadata : Option Metadata
  pub ip : Option String
  pub timestamp : ℕ

abbrev pub same_user : Option ℕ → Option ℕ → Bool
same_user none none = true
same_user (some u) (some v) = u == v
same_user _ _ = false

-- `metadata.get("files")`, and the directory of an upload that has files.
abbrev pub files_of : Option Metadata → Option Files
files_of none = none
files_of (some m) = m.files

abbrev pub directory_of : Option Metadata → Option String
directory_of none = none
directory_of (some m) = elim (m.files) [ none ↦ none | some f ↦ m.directory ]

-- `duration.num_seconds().abs() <= 60`.
abbrev pub is_close : ℕ → ℕ → Bool
is_close s t = leb ((s - t + (t - s)) / 10 ^ 9) 60

-- What a group is kept under.
pub data Key : Type 0 where
  sftp : ActivityEvent → Option ℕ → Key
  upload : Option ℕ → String → Key

abbrev pub same_key : Key → Key → Bool
same_key (sftp e u) (sftp f v) = tag e == tag f && same_user u v
same_key (upload u d) (upload v e) = same_user u v && str_eq d e
same_key _ _ = false

-- The map that an activity goes to, by the conditions of the loop; `none` for neither.
unfoldable pub key_of : Activity → Option Key
unfolding is_sftp_event
key_of a =
    if is_sftp_event a.event && is_some (files_of a.metadata)
    then some (sftp a.event a.user)
    else if tag a.event == tag file_uploaded
    then (elim (directory_of a.metadata) [ none ↦ none | some d ↦ some (upload a.user d) ])
    else none

pub record Group : Type 0 where
  pub key : Key
  pub existing : Activity
  pub members : List Activity

-- The loop over a map and the insertion after it: an activity joins the group of its key where that
-- is close in time, and replaces it otherwise.
unfoldable pub add_to : Key → Activity → List Group → List Group
add_to k a [] = record { key = k; existing = a; members = a ∷ [] } ∷ []
add_to k a (g ∷ gs) =
    let rest = add_to k a gs in
    if same_key g.key k
    then (if is_close a.timestamp g.existing.timestamp
        then record g { members = g.members ++ a ∷ [] } ∷ gs
        else record { key = g.key; existing = a; members = a ∷ [] } ∷ gs)
    else g ∷ rest

-- `merged_activities` and the two maps.
pub record Sorted : Type 0 where
  pub merged : List Activity
  pub sftp_events : List Group
  pub file_upload_events : List Group

abbrev pub sort_by : Option Key → Activity → Sorted → Sorted
sort_by none a s = record s { merged = s.merged ++ a ∷ [] }
sort_by (some (sftp e u)) a s = record s { sftp_events = add_to (sftp e u) a s.sftp_events }
sort_by (some (upload u d)) a s = record s {
  file_upload_events = add_to (upload u d) a s.file_upload_events;
}

unfoldable pub sort_all : Sorted → List Activity → Sorted
sort_all s [] = s
sort_all s (a ∷ xs) = sort_all (sort_by (key_of a) a s) xs

-- The files of the members' arrays, in order.
unfoldable pub all_files : List Activity → List String
all_files [] = []
all_files (a ∷ xs) = elim (files_of a.metadata) [
  | none ↦ all_files xs
  | some (array fs) ↦ fs ++ all_files xs
  | some (value v) ↦ all_files xs
]

abbrev pub set_files : List String → Option Metadata → Option Metadata
set_files fs none = none
set_files fs (some m) = elim (m.files) [
  | none ↦ some m
  | some f ↦ some (record m { files = some (array fs) })
]

-- A group with one member stays as it is.
unfoldable pub finish : Group → Activity
unfolding all_files
finish g =
    if ltb 1 (length g.members)
    then record g.existing { metadata = set_files (all_files g.members) g.existing.metadata }
    else g.existing

unfoldable pub merge : List Activity → List Activity
unfolding sort_all finish
merge xs =
    let s = sort_all (record { merged = []; sftp_events = []; file_upload_events = [] }) xs in
    s.merged ++ map finish s.sftp_events ++ map finish s.file_upload_events

unfoldable pub log_activity : List Activity → Activity → List Activity
log_activity xs a = xs ++ a ∷ []

-- One round of the task: what stays in the log, and what is sent, whether or not the panel takes it.
unfoldable pub flush : ℕ → List Activity → List Activity × List Activity
unfolding merge
flush send_count xs = let merged = merge xs in (drop send_count merged, take send_count merged)
