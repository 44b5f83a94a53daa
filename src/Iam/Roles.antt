-- ===== src/Iam/Roles.antt =====
-- backend/app/iam/rbac_v2.py: the permission matrix and the role hierarchy.
pub mod Hierarchy
use infra_red.Prelude.{
  ℕ, String, Bool, true, false, not, Option, none, some, List, [], ◌∷◌, contains, find, or_else,
  if◌then◌else◌,
}
use infra_red.Prelude.Int.{ℤ, pos, negsuc, ltb_ℤ}

abbrev pub owner_permissions : List String
owner_permissions =
    "incident:read" ∷ "incident:write" ∷ "rule:read" ∷ "rule:write" ∷ "policy:read" ∷ "policy:write"
    ∷ "user:read" ∷ "user:write" ∷ "audit:read" ∷ "report:read" ∷ "block:execute" ∷ "config:backup"
    ∷ "config:restore" ∷ "agent:command" ∷ []

abbrev pub manager_permissions : List String
manager_permissions =
    "incident:read" ∷ "incident:write" ∷ "rule:read" ∷ "rule:write" ∷ "policy:read" ∷ "policy:write"
    ∷ "audit:read" ∷ "report:read" ∷ "block:execute" ∷ "agent:command" ∷ []

abbrev pub analyst_permissions : List String
analyst_permissions = "incident:read" ∷ "incident:write" ∷ "rule:read" ∷ "report:read" ∷ []

abbrev pub viewer_permissions : List String
viewer_permissions = "incident:read" ∷ "report:read" ∷ []

-- ROLE_PERMISSIONS; `admin` is written out in the source with the permissions of `owner`
abbrev pub role_permissions : List (String × List String)
role_permissions =
    ("owner", owner_permissions)
    ∷ ("security_manager", manager_permissions)
    ∷ ("analyst", analyst_permissions)
    ∷ ("viewer", viewer_permissions)
    ∷ ("agent", "event:write" ∷ "heartbeat:write" ∷ [])
    ∷ ("admin", owner_permissions)
    ∷ []

-- _ROLE_RANK
abbrev pub role_rank : List (String × ℤ)
role_rank =
    ("viewer", pos 0)
    ∷ ("analyst", pos 1)
    ∷ ("security_manager", pos 2)
    ∷ ("owner", pos 3)
    ∷ ("admin", pos 3)
    ∷ []

unfoldable pub has_permission : String → String → Bool
has_permission role permission = contains (or_else (find role role_permissions) []) permission

unfoldable pub has_min_role : String → String → Bool
has_min_role user_role min_role = not (
    ltb_ℤ (or_else (find user_role role_rank) (negsuc 0))
      (or_else (find min_role role_rank) (pos 0)))

-- `_check` of `require_role`: does it let the claims through?
unfoldable pub require_role : String → Option String → Bool
require_role min_role role = has_min_role (or_else role "viewer") min_role

-- `_check` of `require_any_role`
unfoldable pub require_any_role : List String → Option String → Bool
require_any_role roles role = contains roles (or_else role "viewer")
