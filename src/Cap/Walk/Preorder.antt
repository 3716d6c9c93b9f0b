-- ===== src/Cap/Walk/Preorder.antt =====
-- application/src/server/filesystem/cap/utils.rs: the walk against the tree's entries in preorder.
use cyrogopus.Prelude.{
  ℕ, zero, suc, ◌<◌, String, Bool, true, false, Option, none, some, List, [], ◌∷◌, ◌++◌, ◌≡◌, inl,
  inr, refl, arith, sym, ap, ◌∙◌, if◌then◌else◌, length, Bool-cases,
}
use mathlib.Core.List.{append_assoc, append-nil}
use cyrogopus.Cap.Walk.{
  Node, file, folder, unreadable, Listing, end, item, bad, Item, found, failed, Frame, is_dir, join,
  enter, prepend, next_in, next_entry, collect, new,
}

module _ (ignored : List String → Bool → Bool) where
  -- The entries below a path, a directory before what it holds, less those that are ignored.
  unfoldable mutual
    pub preorder : List String → Listing → List Item
    preorder p end = []
    preorder p (bad l) = failed ∷ preorder p l
    preorder p (item n t l) =
        if ignored (join p n) (is_dir t)
        then preorder p l
        else preorder_node (join p n) t ++ preorder p l

    pub preorder_node : List String → Node → List Item
    preorder_node p file = found false p ∷ []
    preorder_node p (folder l) = found true p ∷ preorder p l
    preorder_node p unreadable = failed ∷ []

  unfoldable pub preorder_all : List Frame → List Item
  preorder_all [] = []
  preorder_all ((p, l) ∷ s) = preorder p l ++ preorder_all s

  abbrev Agrees : Option Item × List Frame → List Item → Type 0
  Agrees (none, s) is = is ≡ []
  Agrees (some i, s) is = is ≡ i ∷ preorder_all s

  abbrev AgreesIn : Option (Item × List Frame) → List Item → Type 0
  AgreesIn none is = is ≡ []
  AgreesIn (some (i, top)) is = is ≡ i ∷ preorder_all top

  preorder-enter :
      (p : List String) (n : String) (t : Node) (l : Listing)
      → AgreesIn (some (enter p n t l)) (preorder_node (join p n) t ++ preorder p l)
  unfolding preorder preorder_all
  preorder-enter p n file l =
      ap (λ is. found false (join p n) ∷ is) (sym (append-nil (preorder p l)))
  preorder-enter p n (folder m) l =
      ap (λ is. found true (join p n) ∷ (preorder (join p n) m ++ is))
        (sym (append-nil (preorder p l)))
  preorder-enter p n unreadable l = ap (λ is. failed ∷ is) (sym (append-nil (preorder p l)))

  preorder-next_in : (p : List String) (l : Listing) → AgreesIn (next_in ignored p l) (preorder p l)
  unfolding preorder preorder_all next_in
  preorder-next_in p end = refl
  preorder-next_in p (bad l) = ap (λ is. failed ∷ is) (sym (append-nil (preorder p l)))
  preorder-next_in p (item n t l) = elim (Bool-cases (ignored (join p n) (is_dir t))) [
    | inl e ↦ rw e (preorder-next_in p l)
    | inr e ↦ rw e (preorder-enter p n t l)
  ]

  preorder_all-append :
      (s u : List Frame) → preorder_all (s ++ u) ≡ preorder_all s ++ preorder_all u
  unfolding preorder_all
  preorder_all-append [] u = refl
  preorder_all-append ((p, l) ∷ s) u =
      ap (λ is. preorder p l ++ is) (preorder_all-append s u)
      ∙ sym (append_assoc (preorder p l) (preorder_all s) (preorder_all u))

  Agrees-next_in :
      (o : Option (Item × List Frame)) (s : List Frame) (is : List Item)
      → AgreesIn o is
      → Agrees (next_entry ignored s) (preorder_all s)
      → Agrees
          (elim o [ none ↦ next_entry ignored s | some (i, top) ↦ (some i, top ++ s) ])
          (is ++ preorder_all s)
  Agrees-next_in none s is h below = rw h below
  Agrees-next_in (some (i, top)) s is h below =
      rw h (ap (λ js. i ∷ js) (sym (preorder_all-append top s)))

  preorder_all-next_entry : (s : List Frame) → Agrees (next_entry ignored s) (preorder_all s)
  unfolding preorder_all next_entry
  preorder_all-next_entry [] = refl
  preorder_all-next_entry ((p, l) ∷ s) =
      Agrees-next_in (next_in ignored p l) s (preorder p l) (preorder-next_in p l)
        (preorder_all-next_entry s)

  collect-step :
      (n : ℕ) (r : Option Item × List Frame) (is : List Item)
      → ((s : List Frame)
          → length (preorder_all s) < n
          → collect ignored n s ≡ some (preorder_all s))
      → Agrees r is
      → length is < suc n
      → elim r.0 [ none ↦ some [] | some x ↦ prepend x (collect ignored n r.1) ] ≡ some is
  collect-step n (none, s) is ih h b = ap (λ js. some js) (sym h)
  collect-step n (some i, s) is ih h b =
      rw h (rw (ih s (omega (arith, ap (λ js. length js) h, b))) refl)

  collect-preorder_all :
      (n : ℕ) (s : List Frame)
      → length (preorder_all s) < n
      → collect ignored n s ≡ some (preorder_all s)
  unfolding collect
  collect-preorder_all zero s b = ground arith
  collect-preorder_all (suc n) s b =
      collect-step n (next_entry ignored s) (preorder_all s) (collect-preorder_all n)
        (preorder_all-next_entry s) b

-- Whatever the ignore files match, the walk over a directory ends, after one call more than it has
-- entries to report, and it has then reported each entry of the tree once: in preorder, those left out
-- that are ignored with all that an ignored directory holds, and an error in the place of each
-- entry that cannot be read and of each directory that cannot be opened.
pub collect-preorder :
    (ignored : List String → Bool → Bool) (p : List String) (l : Listing) (n : ℕ)
    → length (preorder ignored p l) < n
    → collect ignored n (new p l) ≡ some (preorder ignored p l)
unfolding preorder_all
collect-preorder ignored p l n b =
    rw (sym (append-nil (preorder ignored p l)))
      (collect-preorder_all ignored n (new p l) (rw (append-nil (preorder ignored p l)) b))
