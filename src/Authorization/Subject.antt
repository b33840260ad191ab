-- ===== src/Authorization/Subject.antt =====
-- The subject that the policy builds from a user's mapping, and who owns a resource. Ids are numbers,
-- and the mapping that the subject keeps in `raw_user` is left out.
pub mod Identifiers
pub mod Granted
use fast_api_boilerplate.Base.{
  ℕ, Bool, true, false, Option, none, some, String, List, [], ◌∷◌, ◌++◌, ◌||◌, ◌==◌, str_eq,
  if◌then◌else◌,
}
use fast_api_boilerplate.Base.Sets.{member}
use fast_api_boilerplate.Base.Strings.{strip, split}
use fast_api_boilerplate.Authorization.{
  ClaimItem, Claim, absent, dict, other, single, items, add_nonempty, normalize_identifier,
  normalize_identifier_set, normalize_texts, PermissionPolicy, expand_roles, permissions_for_roles,
}

pub record TenantContext : Type 0 where
  pub tenant_id : Option String
  pub organization_id : Option String

-- What `current_user.get` gives for the keys that the policy reads.
pub record CurrentUser : Type 0 where
  pub id : Option ℕ
  pub username : Option String
  pub email : Option String
  pub principal_type : Option String
  pub role : Claim
  pub roles : Claim
  pub permissions : Claim
  pub scopes : Claim
  pub is_superuser : Bool
  pub tier_id : Option ℕ
  pub tenant_context : Option TenantContext
  pub tenant_id : Option String
  pub organization_id : Option String

pub record AuthorizationSubject : Type 0 where
  pub user_id : Option ℕ
  pub username : Option String
  pub email : Option String
  pub principal_type : String
  pub roles : List String
  pub permissions : List String
  pub is_superuser : Bool
  pub tier_id : Option ℕ
  pub tenant_context : TenantContext

unfoldable pub normalize_claim_values : Claim → List String
normalize_claim_values (single value) = add_nonempty (normalize_identifier value) []
normalize_claim_values (items values) = normalize_identifier_set values
normalize_claim_values _ = []

unfoldable pub normalize_scope_values : Claim → List String
normalize_scope_values (single value) = normalize_texts (split value)
normalize_scope_values claim = normalize_claim_values claim

unfoldable pub normalize_optional_string : Option String → Option String
normalize_optional_string none = none
normalize_optional_string (some value) =
    let normalized = strip value in if str_eq normalized "" then none else some normalized

-- The value of the nested context, and that of the mapping itself where the first is `None`.
abbrev pub nested_or : Option String → Option String → Option String
nested_or none value = normalize_optional_string value
nested_or (some nested) value = some nested

unfoldable pub build_tenant_context : CurrentUser → TenantContext
build_tenant_context subject =
    let nested : TenantContext = elim (subject.tenant_context) [
      | none ↦ record { tenant_id = none; organization_id = none }
      | some context ↦ record {
        tenant_id = normalize_optional_string context.tenant_id;
        organization_id = normalize_optional_string context.organization_id;
      }
    ] in
    record {
      tenant_id = nested_or nested.tenant_id subject.tenant_id;
      organization_id = nested_or nested.organization_id subject.organization_id;
    }

-- The roles that `build_subject` expands.
unfoldable pub user_roles : PermissionPolicy → CurrentUser → List String
user_roles policy current_user =
    let claimed =
      normalize_claim_values current_user.role ++ normalize_claim_values current_user.roles in
    let roles = add_nonempty policy.default_role claimed in
    if current_user.is_superuser then policy.superuser_role ∷ policy.admin_role ∷ roles else roles

abbrev pub principal_type_of : Option String → String
principal_type_of none = "user"
principal_type_of (some value) = value

unfoldable pub build_subject : PermissionPolicy → CurrentUser → AuthorizationSubject
build_subject policy current_user =
    let expanded_roles = expand_roles policy (user_roles policy current_user) in
    record {
      user_id = current_user.id;
      username = current_user.username;
      email = current_user.email;
      principal_type = principal_type_of (normalize_optional_string current_user.principal_type);
      roles = expanded_roles;
      permissions =
          permissions_for_roles policy expanded_roles
          ++ normalize_claim_values current_user.permissions
          ++ normalize_scope_values current_user.scopes;
      is_superuser = current_user.is_superuser;
      tier_id = current_user.tier_id;
      tenant_context = build_tenant_context current_user;
    }

pub data Subject : Type 0 where
  user : CurrentUser → Subject
  built : AuthorizationSubject → Subject

unfoldable pub coerce_subject : PermissionPolicy → Subject → AuthorizationSubject
coerce_subject policy (built subject) = subject
coerce_subject policy (user current_user) = build_subject policy current_user

-- The test of one permission that `has_permission` and `ensure_permissions` make.
unfoldable pub holds : PermissionPolicy → AuthorizationSubject → String → Bool
holds policy subject permission =
    member permission subject.permissions || member policy.wildcard_permission subject.permissions

unfoldable pub has_permission : PermissionPolicy → Subject → String → Bool
has_permission policy subject permission =
    holds policy (coerce_subject policy subject) (normalize_identifier permission)

unfoldable pub subject_has_role : PermissionPolicy → Subject → String → Bool
subject_has_role policy subject role =
    member (normalize_identifier role) (coerce_subject policy subject).roles

abbrev pub is_id : Option ℕ → Option ℕ → Bool
is_id (some owner) (some id) = id == owner
is_id _ _ = false

abbrev pub is_name : Option String → Option String → Bool
is_name (some owner) (some name) = str_eq name owner
is_name _ _ = false

unfoldable pub is_resource_owner : PermissionPolicy → Subject → Option ℕ → Option String → Bool
is_resource_owner policy subject owner_user_id owner_username =
    let resolved_subject = coerce_subject policy subject in
    is_id owner_user_id resolved_subject.user_id || is_name owner_username resolved_subject.username
