-- ===== src/Authorization.antt =====
-- src/app/core/authorization.py, the policy: identifiers, claims, the roles that a role inherits, and
-- the permissions of a set of roles.
pub mod Expansion
pub mod Subject
pub mod Checks
use fast_api_boilerplate.Base.{
  ℕ, zero, suc, ◌+◌, Bool, true, false, Option, none, some, String, List, [], ◌∷◌, ◌++◌, length,
  str_eq, if◌then◌else◌,
}
use fast_api_boilerplate.Base.Dict.{Dict, lookup, insert}
use fast_api_boilerplate.Base.Sets.{member}
use fast_api_boilerplate.Base.Strings.{strip, lower}

-- A member of a claim's collection: a text or an enum member with a text, or any other value.
pub data ClaimItem : Type 0 where
  text_item : String → ClaimItem
  other_item : ClaimItem

-- A claim of the user's mapping. `other` is a value that cannot be iterated.
pub data Claim : Type 0 where
  absent dict other : Claim
  single : String → Claim
  items : List ClaimItem → Claim

unfoldable pub normalize_identifier : String → String
normalize_identifier value = lower (strip value)

abbrev pub add_nonempty : String → List String → List String
add_nonempty value values = if str_eq value "" then values else value ∷ values

unfoldable pub normalize_identifier_set : List ClaimItem → List String
normalize_identifier_set [] = []
normalize_identifier_set (text_item value ∷ values) =
    add_nonempty (normalize_identifier value) (normalize_identifier_set values)
normalize_identifier_set (other_item ∷ values) = normalize_identifier_set values

-- The same on texts alone.
unfoldable pub normalize_texts : List String → List String
normalize_texts [] = []
normalize_texts (value ∷ values) =
    add_nonempty (normalize_identifier value) (normalize_texts values)

-- One entry. A later entry of a key replaces an earlier one. Keys are texts here.
unfoldable pub add_entry : String → List String → Dict (List String) → Dict (List String)
add_entry key values normalized =
    let normalized_key = normalize_identifier key in
    if str_eq normalized_key ""
    then normalized
    else insert normalized_key (normalize_texts values) normalized

unfoldable pub add_mapping : Dict (List String) → Dict (List String) → Dict (List String)
add_mapping normalized [] = normalized
add_mapping normalized ((key, values) ∷ entries) =
    add_mapping (add_entry key values normalized) entries

unfoldable pub normalize_mapping : Dict (List String) → Dict (List String)
normalize_mapping = add_mapping []

pub record PermissionPolicy : Type 0 where
  pub role_permissions : Dict (List String)
  pub role_inheritance : Dict (List String)
  pub default_role : String
  pub admin_role : String
  pub superuser_role : String
  pub wildcard_permission : String

-- `__post_init__`
unfoldable pub permission_policy :
    Dict (List String) → Dict (List String) → String → String → String → String → PermissionPolicy
permission_policy role_permissions role_inheritance default_role admin_role superuser_role
      wildcard =
    record {
      role_permissions = normalize_mapping role_permissions;
      role_inheritance = normalize_mapping role_inheritance;
      default_role = normalize_identifier default_role;
      admin_role = normalize_identifier admin_role;
      superuser_role = normalize_identifier superuser_role;
      wildcard_permission = normalize_identifier wildcard;
    }

abbrev pub or_empty : Option (List String) → List String
or_empty none = []
or_empty (some values) = values

-- `mapping.get(role, frozenset())`
unfoldable pub get_set : String → Dict (List String) → List String
get_set role entries = or_empty (lookup role entries)

unfoldable pub merge_mapping : Dict (List String) → Dict (List String) → Dict (List String)
merge_mapping merged [] = merged
merge_mapping merged ((role, values) ∷ entries) =
    merge_mapping (insert role (get_set role merged ++ values) merged) entries

unfoldable pub extend :
    PermissionPolicy → Dict (List String) → Dict (List String) → PermissionPolicy
extend policy role_permissions role_inheritance =
    permission_policy (merge_mapping policy.role_permissions (normalize_mapping role_permissions))
      (merge_mapping policy.role_inheritance (normalize_mapping role_inheritance))
      policy.default_role policy.admin_role policy.superuser_role policy.wildcard_permission

-- `pending.extend(values)`, with the end of the list `pending`, where `pop` takes, as the head here.
unfoldable pub push_all : List String → List String → List String
push_all [] pending = pending
push_all (value ∷ values) pending = push_all values (value ∷ pending)

-- The loop of `expand_roles`. `none` is a loop that is cut off.
unfoldable pub expand_loop :
    Dict (List String) → ℕ → List String → List String → Option (List String)
expand_loop inheritance fuel [] resolved = some resolved
expand_loop inheritance zero (role ∷ pending) resolved = none
expand_loop inheritance (suc fuel) (role ∷ pending) resolved = elim (member role resolved) [
  | true ↦ expand_loop inheritance fuel pending resolved
  | false ↦
      expand_loop inheritance fuel (push_all (get_set role inheritance) pending) (role ∷ resolved)
]

unfoldable pub inherited_count : Dict (List String) → ℕ
inherited_count [] = 0
inherited_count ((role, inherited) ∷ inheritance) = length inherited + inherited_count inheritance

-- Every round takes one role, and the entries are pushed once each.
unfoldable pub expand_rounds : Dict (List String) → List String → ℕ
expand_rounds inheritance pending = length pending + inherited_count inheritance

-- `expand_roles` of a set that is normalized. The loop is never cut off.
unfoldable pub expand_normalized : PermissionPolicy → List String → List String
expand_normalized policy pending =
    or_empty (
      expand_loop policy.role_inheritance (expand_rounds policy.role_inheritance pending) pending
        [])

unfoldable pub expand_roles : PermissionPolicy → List String → List String
expand_roles policy roles = expand_normalized policy (push_all (normalize_texts roles) [])

unfoldable pub permissions_of : Dict (List String) → List String → List String
permissions_of role_permissions [] = []
permissions_of role_permissions (role ∷ roles) =
    get_set role role_permissions ++ permissions_of role_permissions roles

unfoldable pub permissions_for_roles : PermissionPolicy → List String → List String
permissions_for_roles policy roles =
    permissions_of policy.role_permissions (expand_roles policy roles)

abbrev pub authenticated_role : String
authenticated_role = "authenticated"

abbrev pub admin_grants : List String
admin_grants =
    "platform:admin:access" ∷ "platform:internal:access" ∷ "platform:posts:manage"
    ∷ "platform:rate-limits:manage" ∷ "platform:tiers:manage" ∷ "platform:users:manage" ∷ []

abbrev pub default_role_permission_grants : Dict (List String)
default_role_permission_grants =
    ("authenticated", []) ∷ ("admin", admin_grants) ∷ ("superuser", "*" ∷ []) ∷ []

unfoldable pub default_permission_policy : PermissionPolicy
default_permission_policy =
    permission_policy default_role_permission_grants
      (("admin", "authenticated" ∷ []) ∷ ("superuser", "admin" ∷ []) ∷ []) authenticated_role
      "admin" "superuser" "*"
