-- ===== src/Jwt.antt =====
-- application/src/remote/jwt.rs: the validity of a token's claims, the list of denied tokens, and the
-- counting of one-time ids. A `chrono::DateTime<Utc>` is its number of nanoseconds since the epoch,
-- a claim's time an i64 of seconds. The signature check of `verify` is the `jwt` crate's.
pub mod Denial
pub mod OneTime
mod Tests
use cyrogopus.Prelude.{
  ℕ, suc, ◌+◌, ◌-◌, ◌*◌, ◌/◌, ◌%◌, ◌^◌, String, Bool, true, false, not, List, [], ◌∷◌, Option, none,
  some, ◌&&◌, ◌||◌, leb, ltb, str_eq, if◌then◌else◌,
}
use cyrogopus.Prelude.Int.{ℤ, pos, ltb_ℤ}

abbrev pub DateTime : Type 0
DateTime = ℕ

-- DateTime::timestamp.
abbrev pub timestamp : DateTime → ℤ
timestamp t = pos (t / 10 ^ 9)

abbrev pub hour : ℕ
hour = 3600 * 10 ^ 9

-- The claims that the code reads.
pub record BasePayload : Type 0 where
  pub expiration_time : Option ℤ
  pub not_before : Option ℤ
  pub issued_at : Option ℤ
  pub jwt_id : String

-- HashMap<String, V>.
module _ {ℓ} {V : Type ℓ} where
  unfoldable pub get : List (String × V) → String → Option V
  get [] k = none
  get ((j, v) ∷ m) k = if str_eq j k then some v else get m k

  unfoldable pub insert : List (String × V) → String → V → List (String × V)
  insert [] k v = (k, v) ∷ []
  insert ((j, w) ∷ m) k v = if str_eq j k then (j, v) ∷ m else (j, w) ∷ insert m k v

  unfoldable pub retain : (V → Bool) → List (String × V) → List (String × V)
  retain p [] = []
  retain p ((j, v) ∷ m) = let rest = retain p m in if p v then (j, v) ∷ rest else rest

pub record JwtClient : Type 0 where
  pub boot_time : DateTime
  pub denied_jtokens : List (String × DateTime)
  pub seen_jtoken_ids : List (String × (ℕ × DateTime))  -- the count is a u8

unfoldable pub new : DateTime → JwtClient
new now = record { boot_time = now; denied_jtokens = []; seen_jtoken_ids = [] }

abbrev expired : Option ℤ → ℤ → Bool
expired none now = true
expired (some exp) now = ltb_ℤ exp now

abbrev too_early : Option ℤ → ℤ → Bool
too_early none now = false
too_early (some nbf) now = ltb_ℤ now nbf

abbrev badly_issued : Option ℤ → ℤ → ℤ → Bool
badly_issued none now boot = true
badly_issued (some iat) now boot = ltb_ℤ now iat || ltb_ℤ iat boot

abbrev issued_before : Option ℤ → Option DateTime → Bool
issued_before (some issued) (some until) = ltb_ℤ issued (timestamp until)
issued_before _ none = false
issued_before none (some until) = false

-- `BasePayload::validate`; each early return is one line.
unfoldable pub validate : BasePayload → JwtClient → DateTime → Bool
validate p client now =
    if expired p.expiration_time (timestamp now)
    then false
    else if too_early p.not_before (timestamp now)
    then false
    else if badly_issued p.issued_at (timestamp now) (timestamp client.boot_time)
    then false
    else if issued_before p.issued_at (get client.denied_jtokens p.jwt_id)
    then false
    else true

unfoldable pub deny : JwtClient → String → DateTime → JwtClient
deny client id now = record client { denied_jtokens = insert client.denied_jtokens id now }

-- One round of the sweep that `new` spawns: `expiration > now - 1h`.
unfoldable pub sweep : JwtClient → DateTime → JwtClient
sweep client now = record client {
  denied_jtokens = retain (λ expiration. ltb now (expiration + hour)) client.denied_jtokens;
  seen_jtoken_ids = retain (λ entry. ltb now (entry.1 + hour)) client.seen_jtoken_ids;
}

-- `one_time_id`, one call at a time.
unfoldable pub one_time_id : JwtClient → String → DateTime → JwtClient × Bool
one_time_id client id now = elim (get client.seen_jtoken_ids id) [
  | none ↦ (record client { seen_jtoken_ids = insert client.seen_jtoken_ids id (1, now) }, true)
  | some (count, at) ↦ if leb 2 count then (client, false) else (
    record client { seen_jtoken_ids = insert client.seen_jtoken_ids id ((count + 1) % 256, at) },
    true,
  )
]
