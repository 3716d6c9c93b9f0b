-- ===== src/Permissions/Users.antt =====
-- application/src/server/permissions.rs: `UserPermissionsMap`, the users that a server has seen,
-- with the time of their last access.
use cyrogopus.Prelude.{
  ℕ, ◌-◌, ◌*◌, ◌≤◌, String, Bool, true, false, List, [], ◌∷◌, ◌≡◌, refl, arith, Option, none, some,
  if◌then◌else◌, ◌==◌, ltb, is_some, Bool-cases, Option-cases, inl, inr,
}
use cyrogopus.Permissions.{Permission, has_permission}

-- `Override` and whether a path is whitelisted by one are the `ignore` crate's.
module _ (Override : Type 0) (is_whitelisted : Override → String → Bool → Bool) where
  pub record UserPermissions : Type 0 where
    pub permissions : List Permission
    pub ignored : Option Override
    pub last_access : ℕ  -- in seconds

  abbrev pub UserPermissionsMap : Type 0
  UserPermissionsMap = List (ℕ × UserPermissions)

  -- HashMap::get and insert.
  unfoldable pub get : UserPermissionsMap → ℕ → Option UserPermissions
  get [] user = none
  get ((u, x) ∷ m) user = if u == user then some x else get m user

  unfoldable pub insert : UserPermissionsMap → ℕ → UserPermissions → UserPermissionsMap
  insert [] user x = (user, x) ∷ []
  insert ((u, y) ∷ m) user x = if u == user then (u, x) ∷ m else (u, y) ∷ insert m user x

  unfoldable pub map_has_permission :
      UserPermissionsMap → ℕ → ℕ → Permission → UserPermissionsMap × Bool
  map_has_permission m now user permission = elim (get m user) [
    | none ↦ (m, false)
    | some x ↦
        (insert m user (record x { last_access = now }), has_permission x.permissions permission)
  ]

  unfoldable pub is_ignored : UserPermissionsMap → ℕ → ℕ → String → Bool → UserPermissionsMap × Bool
  is_ignored m now user path is_dir = elim (get m user) [
    | none ↦ (m, false)
    | some x ↦ (
      insert m user (record x { last_access = now }),
      elim (x.ignored) [ none ↦ false | some o ↦ is_whitelisted o path is_dir ],
    )
  ]

  -- `overrides` is what the builder makes of the ignored files.
  unfoldable pub set_permissions :
      UserPermissionsMap → ℕ → ℕ → List Permission → Option Override → UserPermissionsMap
  set_permissions m now user permissions overrides =
      insert m user (record { permissions = permissions; ignored = overrides; last_access = now })

  unfoldable pub is_contained : UserPermissionsMap → ℕ → Bool
  is_contained m user = is_some (get m user)

  -- One round of the sweep, which keeps a user whose last access was less than a day ago.
  unfoldable pub sweep : ℕ → UserPermissionsMap → UserPermissionsMap
  sweep now [] = []
  sweep now ((u, x) ∷ m) =
      let rest = sweep now m in
      if ltb (now - x.last_access) (60 * 60 * 24) then (u, x) ∷ rest else rest

  -- No user stands twice in the map.
  abbrev pub IsFunctional : UserPermissionsMap → Type 0
  IsFunctional [] = Unit
  IsFunctional ((u, x) ∷ m) = (get m u ≡ none) × IsFunctional m

  pub get-insert :
      (m : UserPermissionsMap) (user : ℕ) (x : UserPermissions) (j : ℕ)
      → get (insert m user x) j ≡ (if user == j then some x else get m j)
  unfolding get insert
  get-insert [] user x j = refl
  get-insert ((u, y) ∷ m) user x j = ground (arith, get-insert m user x j)

  insert-IsFunctional :
      (m : UserPermissionsMap) (user : ℕ) (x : UserPermissions)
      → IsFunctional m
      → IsFunctional (insert m user x)
  unfolding get insert
  insert-IsFunctional [] user x h = (refl, tt)
  insert-IsFunctional ((u, y) ∷ m) user x h =
      ground (arith, get-insert m user x u, insert-IsFunctional m user x h.1)

  get-sweep-none :
      (now : ℕ) (m : UserPermissionsMap) (user : ℕ)
      → get m user ≡ none
      → get (sweep now m) user ≡ none
  unfolding get sweep
  get-sweep-none now [] user h = refl
  get-sweep-none now ((u, x) ∷ m) user h = ground (arith, get-sweep-none now m user)

  get-sweep :
      (now : ℕ) (m : UserPermissionsMap) (user : ℕ)
      → IsFunctional m
      → get (sweep now m) user ≡ elim (get m user) as (λ o. Option UserPermissions) [
        | none ↦ none
        | some x ↦ if ltb (now - x.last_access) (60 * 60 * 24) then some x else none
      ]
  unfolding get sweep
  get-sweep now [] user h = refl
  get-sweep now ((u, x) ∷ m) user h = elim (Bool-cases (u == user)) [
    | inl e ↦ ground (arith, e, h.0, get-sweep now m user h.1, get-sweep-none now m user)
    | inr e ↦ ground (arith, e, get-sweep now m user h.1)
  ]

  -- For a user in a map where no one stands twice: a permission that is asked for at one time is
  -- answered the same at a sweep less than a day later; at a sweep a day or more later the user is
  -- dropped, and every request refused.
  sweep-has_permission :
      (m : UserPermissionsMap) (now later user : ℕ) (asked permission : Permission)
      → IsFunctional m
      → now ≤ later
      → is_contained m user ≡ true
      → (map_has_permission
          (sweep later (map_has_permission m now user asked).0)
          later
          user
          permission).1
        ≡ (if ltb (later - now) (60 * 60 * 24)
            then (map_has_permission m now user permission).1
            else false)
  unfolding map_has_permission is_contained
  sweep-has_permission m now later user asked permission h le c = elim (Option-cases (get m user)) [
    | inl e ↦ absurd (ground (arith, e))
    | inr (x, e) ↦
        let seen : UserPermissions = record x { last_access = now } in
        ground (
          arith,
          e,
          get-insert m user seen user,
          get-sweep later (insert m user seen) user (insert-IsFunctional m user seen h),
        )
  ]
