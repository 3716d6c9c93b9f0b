-- ===== src/Permissions/Grants.antt =====
-- application/src/server/permissions.rs: which requests a set of permissions grants.
use cyrogopus.Prelude.{Bool, List, [], ◌∷◌, ◌≡◌, refl, arith, ◌||◌, any}
use cyrogopus.Permissions.{Permission, all_permissions, has_permission, same}

-- `HashSet::contains`.
abbrev pub contains : List Permission → Permission → Bool
contains ps p = any (λ q. same p q) ps

-- A request is granted exactly when the set holds the permission itself or `*`. No permission is
-- exempt from `*`: the admin permissions are granted by it as any other.
pub has_permission-eq-contains :
    (ps : List Permission) (p : Permission)
    → has_permission ps p ≡ (contains ps p || contains ps all_permissions)
unfolding has_permission
has_permission-eq-contains [] p = refl
has_permission-eq-contains (all_permissions ∷ ps) p =
    ground (arith, has_permission-eq-contains ps p)
has_permission-eq-contains (_ ∷ ps) p = ground (arith, has_permission-eq-contains ps p)
