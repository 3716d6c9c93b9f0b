-- ===== src/Config/Edit.antt =====
-- application/src/server/configuration/process.rs: what the edit of a JSON document changes.
use cyrogopus.Prelude.{
  String, Bool, true, false, Option, none, some, List, [], ◌∷◌, ◌≡◌, refl, sym, ap, ◌∙◌, arith,
  eq_iff, str_eq, str_eq_refl, unwrap_or, if◌then◌else◌, Bool-cases, Option-cases, inl, inr,
  is_some, ◌&&◌,
}
use cyrogopus.Prelude.Int.{ℤ}
use cyrogopus.Config.{
  Value, object, boolean, number, integer, float, text, Fields, empty, field, get, insert, Parsing,
  leaf_value, float_value, number_value, fields_of, set_leaf, update_json_value,
}

pub get-insert :
    (k j : String) (v : Value) (fs : Fields)
    → get j (insert k v fs) ≡ (if str_eq k j then some v else get j fs)
unfolding get insert
get-insert k j v empty = refl
get-insert k j v (field i w fs) =
    ground (arith, eq_iff k j, eq_iff i k, eq_iff i j, get-insert k j v fs)

-- The value at a path of keys.
unfoldable pub get_path : Value → List String → Option Value
get_path v [] = some v
get_path v (k ∷ path) = elim (get k (unwrap_or (fields_of v) empty)) [
  | none ↦ none
  | some w ↦ get_path w path
]

-- The value at a path below one that may be missing.
abbrev path_from : Option Value → List String → Option Value
path_from none path = none
path_from (some w) path = get_path w path

get_path-nil : (v : Value) → get_path v [] ≡ some v
unfolding get_path
get_path-nil v = refl

path_from-if :
    (b : Bool) (v : Value) (o : Option Value) (q : List String)
    → path_from (if b then some v else o) q ≡ (if b then get_path v q else path_from o q)
path_from-if true v o q = refl
path_from-if false v o q = refl

get_path-cons :
    (v : Value) (k : String) (path : List String)
    → get_path v (k ∷ path) ≡ path_from (get k (unwrap_or (fields_of v) empty)) path
unfolding get_path
get_path-cons v k path = elim (Option-cases (get k (unwrap_or (fields_of v) empty))) [
  | inl e ↦ rw (e, get_path) refl
  | inr (w, e) ↦ rw (e, get_path) refl
]

-- Whether the value that holds the last key of a path is an object, or is made one.
unfoldable pub is_held : Value → List String → Bool
is_held v [] = true
is_held v (k ∷ []) = is_some (fields_of v)
is_held v (k ∷ l ∷ path) =
    is_held (unwrap_or (get k (unwrap_or (fields_of v) empty)) (object empty)) (l ∷ path)

-- Paths that part at some key.
abbrev pub diverges : List String → List String → Bool
diverges (k ∷ p) (l ∷ q) = if str_eq k l then diverges p q else true
diverges [] q = false
diverges (k ∷ p) [] = false

get_path-set_leaf :
    (ps : Parsing) (o : Option Fields) (k : String) (value : String)
    → get_path (set_leaf ps o k value) (k ∷ [])
      ≡ some (if is_some o then leaf_value ps value else text value)
get_path-set_leaf ps (some fs) k value =
    rw (get_path-cons (object (insert k (leaf_value ps value) fs)) k [])
      (rw (get-insert k k (leaf_value ps value) fs) (rw (str_eq_refl k) (get_path-nil _)))
get_path-set_leaf ps none k value =
    rw (get_path-cons (object (insert k (text value) empty)) k [])
      (rw (get-insert k k (text value) empty) (rw (str_eq_refl k) (get_path-nil _)))

get_path-update_json_value_lem :
    (path : List String) (ps : Parsing) (json : Value) (k : String) (value : String)
    → get_path (update_json_value ps json (k ∷ path) value) (k ∷ path)
      ≡ some (if is_held json (k ∷ path) then leaf_value ps value else text value)
unfolding update_json_value is_held
get_path-update_json_value_lem [] ps json k value = get_path-set_leaf ps (fields_of json) k value
get_path-update_json_value_lem (l ∷ path) ps json k value =
    let fs = unwrap_or (fields_of json) empty in
    let below = unwrap_or (get k fs) (object empty) in
    get_path-cons (update_json_value ps json (k ∷ l ∷ path) value) k (l ∷ path)
    ∙ ap (λ o. path_from o (l ∷ path))
        (get-insert k k (update_json_value ps below (l ∷ path) value) fs
          ∙ ap (λ b. if b then some (update_json_value ps below (l ∷ path) value) else get k fs)
              (str_eq_refl k))
    ∙ get_path-update_json_value_lem path ps below l value

-- Neither of the two words of a boolean.
abbrev pub IsNoWord : Parsing → String → Type 0
IsNoWord ps value =
    (ps.eq_ignore_ascii_case value "true" ≡ false) × (ps.eq_ignore_ascii_case value "false" ≡ false)

abbrev is_fraction : Parsing → Option String → Bool
is_fraction ps none = false
is_fraction ps (some f) = ps.has_fraction f && ps.is_finite f

-- What a text reads as.
abbrev pub Reads : Parsing → String → Value → Type 0
Reads ps value (boolean true) = ps.eq_ignore_ascii_case value "true" ≡ true
Reads ps value (boolean false) =
    (ps.eq_ignore_ascii_case value "true" ≡ false) × (ps.eq_ignore_ascii_case value "false" ≡ true)
Reads ps value (number (integer i)) = IsNoWord ps value × (ps.parse_i64 value ≡ some i)
Reads ps value (number (float f)) =
    IsNoWord ps value
    × (ps.parse_i64 value ≡ none)
    × (ps.parse_f64 value ≡ some f)
    × (ps.has_fraction f ≡ true)
    × (ps.is_finite f ≡ true)
Reads ps value (text s) =
    (s ≡ value)
    × IsNoWord ps value
    × (ps.parse_i64 value ≡ none)
    × (is_fraction ps (ps.parse_f64 value) ≡ false)
Reads ps value _ = ⊥

float_value-Reads :
    (ps : Parsing) (value f : String) (b c : Bool)
    → IsNoWord ps value
    → ps.parse_i64 value ≡ none
    → ps.parse_f64 value ≡ some f
    → ps.has_fraction f ≡ b
    → ps.is_finite f ≡ c
    → Reads ps value (if b then (if c then number (float f) else text value) else text value)
float_value-Reads ps value f true true h i p x y = (h, i, p, x, y)
float_value-Reads ps value f true false h i p x y = (refl, h, i, rw (p, x, y) refl)
float_value-Reads ps value f false c h i p x y = (refl, h, i, rw (p, x) refl)

parsed-Reads :
    (ps : Parsing) (value : String) (i : Option ℤ) (f : Option String)
    → IsNoWord ps value
    → ps.parse_i64 value ≡ i
    → ps.parse_f64 value ≡ f
    → Reads ps value (elim i [
      | some n ↦ number (integer n)
      | none ↦ elim f [ some g ↦ float_value ps value g | none ↦ text value ]
    ])
parsed-Reads ps value (some n) f h i p = (h, i)
parsed-Reads ps value none none h i p = (refl, h, i, rw p refl)
parsed-Reads ps value none (some g) h i p = float_value-Reads ps value g _ _ h i p refl refl

word-Reads :
    (ps : Parsing) (value : String) (t f : Bool)
    → ps.eq_ignore_ascii_case value "true" ≡ t
    → ps.eq_ignore_ascii_case value "false" ≡ f
    → Reads ps value
        (if t then boolean true else if f then boolean false else number_value ps value)
word-Reads ps value true f h g = h
word-Reads ps value false true h g = (h, g)
word-Reads ps value false false h g = parsed-Reads ps value _ _ (h, g) refl refl

leaf_value-Reads : (ps : Parsing) (value : String) → Reads ps value (leaf_value ps value)
unfolding leaf_value
leaf_value-Reads ps value = word-Reads ps value _ _ refl refl

-- What an updated value is, by whether an object holds it.
abbrev pub Stored : Bool → Parsing → String → Value → Type 0
Stored true ps value v = Reads ps value v
Stored false ps value v = v ≡ text value

Stored-if :
    (b : Bool) (ps : Parsing) (value : String)
    → Stored b ps value (if b then leaf_value ps value else text value)
Stored-if true ps value = leaf_value-Reads ps value
Stored-if false ps value = refl

-- There is a value at a path that was updated. Where an object holds the path's last key, or is made
-- to hold it, the value is a boolean where the text is one of its two words, in whatever case; else
-- an integer where the text is one of an i64; else a float where the text is one that is finite and
-- has a fraction; and the text itself otherwise, so for a whole number written as a float or too
-- large for an i64. Where another value was in the object's place, it is the text itself.
pub get_path-update_json_value :
    (path : List String) (ps : Parsing) (json : Value) (k : String) (value : String)
    → (v : Value) × (get_path (update_json_value ps json (k ∷ path) value) (k ∷ path) ≡ some v)
      × Stored (is_held json (k ∷ path)) ps value v
get_path-update_json_value path ps json k value = (
  if is_held json (k ∷ path) then leaf_value ps value else text value,
  get_path-update_json_value_lem path ps json k value,
  Stored-if (is_held json (k ∷ path)) ps value,
)

-- An update of the field `k`, seen at a path that starts with `l`.
get_path-insert :
    (json v : Value) (k l : String) (q : List String)
    → get_path (object (insert k v (unwrap_or (fields_of json) empty))) (l ∷ q)
      ≡ (if str_eq k l then get_path v q else get_path json (l ∷ q))
get_path-insert json v k l q =
    let fs = unwrap_or (fields_of json) empty in
    get_path-cons (object (insert k v fs)) l q
    ∙ ap (λ o. path_from o q) (get-insert k l v fs)
    ∙ path_from-if (str_eq k l) v (get l fs) q
    ∙ ap (λ o. if str_eq k l then get_path v q else o) (sym (get_path-cons json l q))

-- A new object at a missing key holds nothing.
get_path-default :
    (o : Option Value) (q : List String) (l : String)
    → get_path (unwrap_or o (object empty)) (l ∷ q) ≡ path_from o (l ∷ q)
unfolding get_path get
get_path-default none q l = refl
get_path-default (some v) q l = refl

get_path-set_leaf_ne :
    (ps : Parsing) (o : Option Fields) (k value : String) (l : String) (q : List String)
    → str_eq k l ≡ false
    → get_path (set_leaf ps o k value) (l ∷ q) ≡ path_from (get l (unwrap_or o empty)) q
get_path-set_leaf_ne ps (some fs) k value l q h =
    get_path-insert (object fs) (leaf_value ps value) k l q ∙ rw h (get_path-cons (object fs) l q)
get_path-set_leaf_ne ps none k value l q h =
    get_path-insert (object empty) (text value) k l q ∙ rw h (get_path-cons (object empty) l q)

-- The values at all paths that part from the updated one are as before.
get_path-diverges :
    (p q : List String) (ps : Parsing) (json : Value) (value : String)
    → diverges p q ≡ true
    → get_path (update_json_value ps json p value) q ≡ get_path json q
unfolding update_json_value
get_path-diverges [] q ps json value h = ground arith
get_path-diverges (k ∷ p) [] ps json value h = ground arith
get_path-diverges (k ∷ []) (l ∷ q) ps json value h = elim (Bool-cases (str_eq k l)) [
  | inl e ↦ ground (arith, e, h)
  | inr e ↦ get_path-set_leaf_ne ps (fields_of json) k value l q e ∙ sym (get_path-cons json l q)
]
get_path-diverges (k ∷ m ∷ p) (l ∷ []) ps json value h =
    let fs = unwrap_or (fields_of json) empty in
    let below = unwrap_or (get k fs) (object empty) in
    get_path-insert json (update_json_value ps below (m ∷ p) value) k l []
    ∙ elim (Bool-cases (str_eq k l)) [ inl e ↦ ground (arith, e, h) | inr e ↦ rw e refl ]
get_path-diverges (k ∷ m ∷ p) (l ∷ n ∷ q) ps json value h =
    let fs = unwrap_or (fields_of json) empty in
    let below = unwrap_or (get k fs) (object empty) in
    get_path-insert json (update_json_value ps below (m ∷ p) value) k l (n ∷ q)
    ∙ elim (Bool-cases (str_eq k l)) [
      | inl e ↦ rw e (
          get_path-diverges (m ∷ p) (n ∷ q) ps below value (ground (arith, e, h))
          ∙ get_path-default (get k fs) q n
          ∙ ap (λ i. path_from (get i fs) (n ∷ q)) ((eq_iff k l).0 e)
          ∙ sym (get_path-cons json l (n ∷ q)))
      | inr e ↦ rw e refl
    ]
