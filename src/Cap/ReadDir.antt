-- ===== src/Cap/ReadDir.antt =====
-- application/src/server/filesystem/cap/utils.rs and mod.rs: the entries of one directory, read one
-- by one or, in the asynchronous form, 32 at a time into a buffer. The iterator of the system is
-- the list of what it has left; a panic of the task that fills the buffer is not modelled.
pub mod Buffer
use cyrogopus.Prelude.{ℕ, zero, suc, String, Bool, Option, none, some, List, [], ◌∷◌, ◌++◌}

-- What next_entry returns: whether it is a directory, and its name, or an error.
abbrev pub Entry : Type 0
Entry = Option (Bool × String)

-- CapReadDir::next_entry and StdReadDir::next_entry.
abbrev pub next : List Entry → Option Entry × List Entry
next [] = (none, [])
next (e ∷ es) = (some e, es)

abbrev pub buffer_len : ℕ
buffer_len = 32

-- AsyncCapReadDir: the iterator, and the buffer.
pub record AsyncCapReadDir : Type 0 where
  pub read_dir : List Entry
  pub buffer : List Entry

-- The loop of the task: up to `n` entries move to the end of the buffer.
unfoldable pub fill : ℕ → List Entry → List Entry → List Entry × List Entry
fill zero es buffer = (es, buffer)
fill (suc n) [] buffer = ([], buffer)
fill (suc n) (e ∷ es) buffer = fill n es (buffer ++ (e ∷ []))

-- pop_front.
abbrev pub pop_front : List Entry × List Entry → Option Entry × AsyncCapReadDir
pop_front (es, []) = (none, record { read_dir = es; buffer = [] })
pop_front (es, e ∷ b) = (some e, record { read_dir = es; buffer = b })

abbrev pub filled : List Entry → List Entry → List Entry × List Entry
filled es [] = fill buffer_len es []
filled es (e ∷ b) = (es, e ∷ b)

unfoldable pub async_next : AsyncCapReadDir → Option Entry × AsyncCapReadDir
async_next d = pop_front (filled d.read_dir d.buffer)

abbrev pub async_new : List Entry → AsyncCapReadDir
async_new es = record { read_dir = es; buffer = [] }

-- One round of `while let Some(Ok((_, entry)))`, with the names of the rounds after it.
abbrev pub push_name : Option Entry → Option (List String) → Option (List String)
push_name none more = some []
push_name (some none) more = some []
push_name (some (some (is_dir, name))) none = none
push_name (some (some (is_dir, name))) (some names) = some (name ∷ names)

-- read_dir_all and async_read_dir_all, `none` where the fuel ends first.
unfoldable pub read_dir_all : ℕ → List Entry → Option (List String)
read_dir_all zero es = none
read_dir_all (suc n) es =
    let (e, rest) = next es in let more = read_dir_all n rest in push_name e more

unfoldable pub async_read_dir_all : ℕ → AsyncCapReadDir → Option (List String)
async_read_dir_all zero d = none
async_read_dir_all (suc n) d =
    let (e, rest) = async_next d in let more = async_read_dir_all n rest in push_name e more

-- The entries before the first that cannot be read.
unfoldable pub names_before_error : List Entry → List String
names_before_error [] = []
names_before_error (none ∷ es) = []
names_before_error (some (is_dir, name) ∷ es) = name ∷ names_before_error es
