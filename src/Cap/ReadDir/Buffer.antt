-- ===== src/Cap/ReadDir/Buffer.antt =====
-- application/src/server/filesystem/cap/utils.rs: the buffered reading of a directory against the
-- direct one.
use cyrogopus.Prelude.{
  ℕ, zero, suc, ◌<◌, Option, none, some, List, [], ◌∷◌, ◌++◌, ◌≡◌, refl, arith, ap, ◌∙◌, length,
}
use mathlib.Core.List.{append_assoc}
use cyrogopus.Cap.ReadDir.{
  Entry, next, AsyncCapReadDir, fill, pop_front, filled, async_next, async_new, push_name,
  read_dir_all, async_read_dir_all, names_before_error,
}

-- The entries still to come.
abbrev contents : AsyncCapReadDir → List Entry
contents d = d.buffer ++ d.read_dir

abbrev seen : Option Entry × AsyncCapReadDir → Option Entry × List Entry
seen (e, d) = (e, contents d)

seen-fill :
    (n : ℕ) (es : List Entry) (e : Entry) (b : List Entry)
    → seen (pop_front (fill n es (e ∷ b))) ≡ (some e, b ++ es)
unfolding fill
seen-fill zero es e b = refl
seen-fill (suc n) [] e b = refl
seen-fill (suc n) (x ∷ es) e b =
    seen-fill n es e (b ++ (x ∷ [])) ∙ ap (λ xs. (some e, xs)) (append_assoc b (x ∷ []) es)

seen-filled : (es b : List Entry) → seen (pop_front (filled es b)) ≡ next (b ++ es)
unfolding fill
seen-filled es (e ∷ b) = refl
seen-filled [] [] = refl
seen-filled (e ∷ es) [] = seen-fill 31 es e []

seen-async_next : (d : AsyncCapReadDir) → seen (async_next d) ≡ next (contents d)
unfolding async_next
seen-async_next d = seen-filled d.read_dir d.buffer

-- The buffered reading is the direct reading of what is still to come, with any fuel.
async-eq-direct :
    (n : ℕ) (d : AsyncCapReadDir) → async_read_dir_all n d ≡ read_dir_all n (contents d)
unfolding read_dir_all async_read_dir_all
async-eq-direct zero d = refl
async-eq-direct (suc n) d =
    ap (λ more. push_name (async_next d).0 more) (async-eq-direct n (async_next d).1)
    ∙ ap (λ (e, rest). push_name e (read_dir_all n rest)) (seen-async_next d)

read_dir_all_lem :
    (n : ℕ) (es : List Entry) → length es < n → read_dir_all n es ≡ some (names_before_error es)
unfolding read_dir_all names_before_error
read_dir_all_lem zero es h = ground arith
read_dir_all_lem (suc n) [] h = refl
read_dir_all_lem (suc n) (none ∷ es) h = refl
read_dir_all_lem (suc n) (some (d, a) ∷ es) h = rw (read_dir_all_lem n es (omega (arith, h))) refl

-- The asynchronous listing of a directory, read in batches of 32 through a buffer, and the direct
-- one both end, after one call more than there are entries, and both return the names of the
-- entries before the first that cannot be read, in order.
async_read_dir_all-names :
    (n : ℕ) (es : List Entry)
    → length es < n
    → (async_read_dir_all n (async_new es) ≡ some (names_before_error es))
      × (read_dir_all n es ≡ some (names_before_error es))
async_read_dir_all-names n es h =
    (async-eq-direct n (async_new es) ∙ read_dir_all_lem n es h, read_dir_all_lem n es h)
