-- ===== src/Installation/Output.antt =====
-- application/src/server/installation.rs: the output of the container, cut in lines of 512 bytes at
-- most. Of the buffer only the part from `line_start` on is kept, which the drain of the buffer
-- leaves alone. A line is given as its bytes, before it is decoded and trimmed.
pub mod Scan
use cyrogopus.Prelude.{
  ℕ, zero, suc, Bool, true, false, List, [], ◌∷◌, ◌++◌, Option, none, some, ◌==◌, leb, ltb, length,
  take, drop, if◌then◌else◌,
}

abbrev pub Bytes : Type 0
Bytes = List ℕ

abbrev pub next : Option ℕ → Option ℕ
next none = none
next (some n) = some (suc n)

-- `position(|&b| b == b'\n')`.
unfoldable pub position : Bytes → Option ℕ
position [] = none
position (b ∷ bs) = let rest = position bs in if b == 10 then some 0 else next rest

-- Lines that were sent, and the bytes that are left.
abbrev pub Output : Type 0
Output = List Bytes × Bytes

abbrev pub sent : Bytes → Output → Output
sent line (lines, left) = (line ∷ lines, left)

-- The inner loop, on fuel: each round takes a byte at least.
unfoldable pub cut_lines : ℕ → Bytes → Output
cut_lines zero buffer = ([], buffer)
cut_lines (suc fuel) buffer = elim (position buffer) [
  | some n ↦
      if leb n 512
      then sent (take n buffer) (cut_lines fuel (drop (suc n) buffer))
      else sent (take 512 buffer) (cut_lines fuel (drop 512 buffer))
  | none ↦
      if ltb 512 (length buffer)
      then sent (take 512 buffer) (cut_lines fuel (drop 512 buffer))
      else ([], buffer)
]

abbrev pub then_lines : List Bytes → Output → Output
then_lines before (lines, left) = (before ++ lines, left)

-- The loop over the data of the stream.
unfoldable pub read_stream : Bytes → List Bytes → Output
read_stream buffer [] = ([], buffer)
read_stream buffer (chunk ∷ stream) =
    let out = cut_lines (length (buffer ++ chunk)) (buffer ++ chunk) in
    then_lines out.0 (read_stream out.1 stream)

abbrev pub last_line : Output → List Bytes
last_line (lines, []) = lines
last_line (lines, b ∷ left) = lines ++ (b ∷ left) ∷ []

-- All lines that are sent, the bytes that are left at the end among them.
unfoldable pub send_output : List Bytes → List Bytes
send_output stream = last_line (read_stream [] stream)
