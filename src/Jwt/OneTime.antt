-- ===== src/Jwt/OneTime.antt =====
-- application/src/remote/jwt.rs: how often an id is let through.
use Prim.Native.Nat.{min}
use cyrogopus.Prelude.{
  ℕ, suc, ◌≤◌, String, List, [], ◌∷◌, Option, none, some, ◌≡◌, arith, eq_iff, str_eq, if◌then◌else◌,
  ◌-◌, ◌%◌, ◌+◌, ltb, Option-cases, inl, inr,
}
use cyrogopus.Jwt.{DateTime, JwtClient, get, one_time_id, new}
use cyrogopus.Jwt.Denial.{get-insert}

-- Calls with ids and times, and how many of those with one id are let through.
pub accepted : JwtClient → String → List (String × DateTime) → ℕ
accepted client id [] = 0
accepted client id ((k, now) ∷ calls) =
    let rest = accepted (one_time_id client k now).0 id calls in
    if str_eq k id then (if (one_time_id client k now).1 then suc rest else rest) else rest

abbrev pub occurrences : String → List (String × DateTime) → ℕ
occurrences id [] = 0
occurrences id ((k, now) ∷ calls) =
    let rest = occurrences id calls in if str_eq k id then suc rest else rest

abbrev pub count_of : Option (ℕ × DateTime) → ℕ
count_of none = 0
count_of (some (n, at)) = n

one_time_id-count :
    (client : JwtClient) (k : String) (now : DateTime) (id : String)
    → count_of (get client.seen_jtoken_ids k) ≤ 2
    → count_of (get (one_time_id client k now).0.seen_jtoken_ids id) ≡ (
        if str_eq k id
        then min 2 (suc (count_of (get client.seen_jtoken_ids id)))
        else count_of (get client.seen_jtoken_ids id))
unfolding one_time_id
one_time_id-count client k now id h = elim (Option-cases (get client.seen_jtoken_ids k)) [
  | inl e ↦ ground (arith, e, eq_iff k id, get-insert client.seen_jtoken_ids k (1, now) id)
  | inr ((n, at), e) ↦
      ground (arith, e, eq_iff k id, get-insert client.seen_jtoken_ids k ((n + 1) % 256, at) id)
]

one_time_id-accepts :
    (client : JwtClient) (k : String) (now : DateTime)
    → (one_time_id client k now).1 ≡ ltb (count_of (get client.seen_jtoken_ids k)) 2
unfolding one_time_id
one_time_id-accepts client k now = elim (Option-cases (get client.seen_jtoken_ids k)) [
  | inl e ↦ ground (arith, e)
  | inr ((n, at), e) ↦ ground (arith, e)
]

accepted-from :
    (client : JwtClient) (id : String) (calls : List (String × DateTime))
    → ((k : String) → count_of (get client.seen_jtoken_ids k) ≤ 2)
    → accepted client id calls
      ≡ min (2 - count_of (get client.seen_jtoken_ids id)) (occurrences id calls)
unfolding accepted
accepted-from client id [] h = omega arith
accepted-from client id ((k, now) ∷ calls) h = ground (
  arith,
  eq_iff k id,
  h k,
  h id,
  one_time_id-count client k now id (h k),
  one_time_id-accepts client k now,
  accepted-from (one_time_id client k now).0 id calls
      (λ j. ground (arith, one_time_id-count client k now j (h k), h j)),
)

-- Between two sweeps an id is let through twice, and no more, whatever other ids come in between.
accepted-eq-min :
    (boot : DateTime) (id : String) (calls : List (String × DateTime))
    → accepted (new boot) id calls ≡ min 2 (occurrences id calls)
unfolding new get
accepted-eq-min boot id calls = ground (arith, accepted-from (new boot) id calls (λ k. omega arith))
