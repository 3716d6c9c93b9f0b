-- ===== src/Jwt/Denial.antt =====
-- application/src/remote/jwt.rs: what a denial does to the tokens of its id, and for how long.
use cyrogopus.Prelude.{
  ◌+◌, ◌≤◌, String, Bool, true, false, List, [], ◌∷◌, Option, none, some, ◌≡◌, ◌≢◌, refl, sym,
  arith, eq_iff, str_eq, str_eq_refl, if◌then◌else◌, ltb, inl, inr, Bool-cases, is_some,
}
use cyrogopus.Prelude.Int.{ℤ, ltb_ℤ}
use cyrogopus.Jwt.{
  DateTime, BasePayload, JwtClient, get, insert, retain, validate, deny, sweep, timestamp, hour,
}

module _ {ℓ} {V : Type ℓ} where
  pub get-insert :
      (m : List (String × V)) (k : String) (v : V) (j : String)
      → get (insert m k v) j ≡ (if str_eq k j then some v else get m j)
  unfolding get insert
  get-insert [] k v j = refl
  get-insert ((i, w) ∷ m) k v j =
      ground (arith, eq_iff k j, eq_iff i k, eq_iff i j, get-insert m k v j)

  -- No key stands twice.
  abbrev pub IsFunctional : List (String × V) → Type 0
  IsFunctional [] = Unit
  IsFunctional ((k, v) ∷ m) = (is_some (get m k) ≡ false) × IsFunctional m

  pub insert-IsFunctional :
      (m : List (String × V)) (k : String) (v : V) → IsFunctional m → IsFunctional (insert m k v)
  unfolding get insert
  insert-IsFunctional [] k v h = (refl, tt)
  insert-IsFunctional ((j, w) ∷ m) k v h = elim (Bool-cases (str_eq j k)) [
    | inl e ↦ ground (arith, e, h)
    | inr e ↦ rw e (
      ground (arith, e, get-insert m k v j, eq_iff j k, eq_iff k j, h.0),
      insert-IsFunctional m k v h.1,
    )
  ]

  get-retain-none :
      (p : V → Bool) (m : List (String × V)) (k : String)
      → is_some (get m k) ≡ false
      → get (retain p m) k ≡ none
  unfolding get retain
  get-retain-none p [] k h = refl
  get-retain-none p ((j, v) ∷ m) k h = ground (arith, get-retain-none p m k)

  pub get-retain :
      (p : V → Bool) (m : List (String × V)) (k : String)
      → IsFunctional m
      → get (retain p m) k
        ≡ elim (get m k) as (λ o. Option V) [ none ↦ none | some v ↦ if p v then some v else none ]
  unfolding get retain
  get-retain p [] k h = refl
  get-retain p ((j, v) ∷ m) k h = elim (Bool-cases (str_eq j k)) [
    | inl e ↦ ground (arith, e, h.0, (eq_iff j k).0 e, get-retain p m k h.1, get-retain-none p m k)
    | inr e ↦ ground (arith, e, get-retain p m k h.1)
  ]

-- A denial at time `d` refuses, at every time until a sweep, the tokens of its id that were issued
-- in an earlier second.
validate-deny :
    (client : JwtClient) (d now : DateTime) (p : BasePayload) (issued : ℤ)
    → p.issued_at ≡ some issued
    → ltb_ℤ issued (timestamp d) ≡ true
    → validate p (deny client p.jwt_id d) now ≡ false
unfolding validate deny
validate-deny client d now p issued h early =
    ground (arith, get-insert client.denied_jtokens p.jwt_id d p.jwt_id, str_eq_refl p.jwt_id)

-- A denial decides nothing about the tokens of other ids.
pub validate-deny_other :
    (client : JwtClient) (id : String) (d now : DateTime) (p : BasePayload)
    → p.jwt_id ≢ id
    → validate p (deny client id d) now ≡ validate p client now
unfolding validate deny
validate-deny_other client id d now p other =
    ground (arith, get-insert client.denied_jtokens id d p.jwt_id, eq_iff id p.jwt_id)

-- A sweep an hour or more after a denial, in a list with no id twice, forgets it: a token of its id
-- is valid exactly if it is with nothing denied, however far off its expiration is.
sweep-forgets :
    (client : JwtClient) (id : String) (d later now : DateTime) (p : BasePayload)
    → IsFunctional client.denied_jtokens
    → p.jwt_id ≡ id
    → d + hour ≤ later
    → validate p (sweep (deny client id d) later) now
      ≡ validate p (record client { denied_jtokens = [] }) now
unfolding validate deny sweep get
sweep-forgets client id d later now p h same late = ground (
  arith,
  get-retain (λ (e : DateTime). ltb later (e + hour)) (insert client.denied_jtokens id d) p.jwt_id
      (insert-IsFunctional client.denied_jtokens id d h),
  get-insert client.denied_jtokens id d p.jwt_id,
  (eq_iff id p.jwt_id).1 (sym same),
)
