-- ===== src/Tests/Authorization.antt =====
-- Runs of the authorization policy.
use fast_api_boilerplate.Base.{
  ◌≡◌, refl, ◌≢◌, ◌↔◌, ◌⊎◌, inr, true, false, none, some, [], ◌∷◌, ◌||◌,
}
use fast_api_boilerplate.Base.Dict.{lookup, insert}
use fast_api_boilerplate.Base.Sets.{member}
use fast_api_boilerplate.Authorization.{
  single, absent, PermissionPolicy, permission_policy, normalize_identifier, normalize_texts,
  expand_loop, expand_rounds, expand_normalized, expand_roles, push_all, normalize_mapping,
  add_mapping, add_entry, get_set, inherited_count, normalize_identifier_set, permissions_of,
  permissions_for_roles,
}
use fast_api_boilerplate.Base.Strings.{
  lower, strip, strip_end, strip_start, is_space, push_stripped, translate, push_word, split,
  starts_word,
}
use fast_api_boilerplate.Authorization.Expansion.{
  Reached, expand_normalized_terminates, expand_roles_correct,
}
use fast_api_boilerplate.Authorization.Subject.{
  CurrentUser, user, coerce_subject, holds, has_permission, is_resource_owner, build_subject,
  build_tenant_context, user_roles, normalize_claim_values, normalize_optional_string,
  normalize_scope_values,
}
use fast_api_boilerplate.Authorization.Subject.Identifiers.{
  IsNormalized, IsNormalized-permission_policy,
}
use fast_api_boilerplate.Authorization.Subject.Granted.{Granted, has_permission_iff}
use fast_api_boilerplate.Authorization.Checks.{
  ensure_roles, ensure_permissions, authorize_owner_or_permission,
}
use fast_api_boilerplate.Authorization.Checks.Decided.{
  Satisfies, ensure_roles_iff, ensure_permissions_iff, authorize_owner_or_permission_iff,
}

-- Two roles that inherit each other.
abbrev cyclic : PermissionPolicy
cyclic =
    permission_policy (("editor", "posts:edit" ∷ []) ∷ [])
      ((" Editor ", "Writer" ∷ []) ∷ ("writer", "editor" ∷ []) ∷ []) "" "admin" "superuser" "*"

expand_normalized_terminates_example :
    expand_loop cyclic.role_inheritance
      (expand_rounds cyclic.role_inheritance ("writer" ∷ []))
      ("writer" ∷ [])
      []
    ≡ some (expand_normalized cyclic ("writer" ∷ []))
expand_normalized_terminates_example = expand_normalized_terminates cyclic ("writer" ∷ [])

expand_roles-cyclic : expand_roles cyclic ("WRITER" ∷ []) ≡ "editor" ∷ "writer" ∷ []
unfolding expand_roles expand_normalized expand_loop push_all normalize_texts permission_policy
    normalize_mapping add_mapping add_entry get_set inherited_count expand_rounds insert lookup
    member lower strip strip_end strip_start is_space push_stripped translate normalize_identifier
expand_roles-cyclic = refl

expand_roles_correct_example :
    (member "editor" (expand_roles cyclic ("WRITER" ∷ [])) ≡ true)
    ↔ ∥ Reached cyclic.role_inheritance (normalize_texts ("WRITER" ∷ [])) "editor" ∥₁
expand_roles_correct_example = expand_roles_correct cyclic ("WRITER" ∷ []) "editor"

normalized : IsNormalized cyclic
normalized =
    IsNormalized-permission_policy (("editor", "posts:edit" ∷ []) ∷ [])
      ((" Editor ", "Writer" ∷ []) ∷ ("writer", "editor" ∷ []) ∷ []) "" "admin" "superuser" "*"

abbrev writer : CurrentUser
writer = record {
  id = some 7;
  username = some "ada";
  email = none;
  principal_type = none;
  role = single "writer";
  roles = absent;
  permissions = absent;
  scopes = single "posts:read  posts:list";
  is_superuser = false;
  tier_id = none;
  tenant_context = none;
  tenant_id = some " t1 ";
  organization_id = none;
}

has_permission-writer : has_permission cyclic (user writer) "posts:edit" ≡ true
unfolding has_permission holds coerce_subject build_subject build_tenant_context
    permissions_for_roles permissions_of user_roles normalize_claim_values normalize_optional_string
    normalize_scope_values normalize_identifier_set push_word split starts_word expand_roles
    expand_normalized expand_loop push_all normalize_texts permission_policy normalize_mapping
    add_mapping add_entry get_set inherited_count expand_rounds insert lookup member lower strip
    strip_end strip_start is_space push_stripped translate normalize_identifier
has_permission-writer = refl

has_permission_iff_example :
    (has_permission cyclic (user writer) "posts:edit" ≡ true)
    ↔ ∥ Granted cyclic writer (normalize_identifier "posts:edit")
        ⊎ Granted cyclic writer cyclic.wildcard_permission ∥₁
has_permission_iff_example = has_permission_iff cyclic writer "posts:edit" normalized

ensure_roles_iff_example :
    (ensure_roles cyclic (user writer) ("editor" ∷ " " ∷ []) true none
      ≡ inr (coerce_subject cyclic (user writer)))
    ↔ ((normalize_texts ("editor" ∷ " " ∷ []) ≢ [])
        × Satisfies true
            (λ role. member role (coerce_subject cyclic (user writer)).roles)
            (normalize_texts ("editor" ∷ " " ∷ []))
        × (coerce_subject cyclic (user writer) ≡ coerce_subject cyclic (user writer)))
ensure_roles_iff_example =
    ensure_roles_iff cyclic (user writer) ("editor" ∷ " " ∷ []) true none
      (coerce_subject cyclic (user writer))

ensure_permissions_iff_example :
    (ensure_permissions cyclic (user writer) ("posts:edit" ∷ "users:edit" ∷ []) false none
      ≡ inr (coerce_subject cyclic (user writer)))
    ↔ ((normalize_texts ("posts:edit" ∷ "users:edit" ∷ []) ≢ [])
        × Satisfies false
            (holds cyclic (coerce_subject cyclic (user writer)))
            (normalize_texts ("posts:edit" ∷ "users:edit" ∷ []))
        × (coerce_subject cyclic (user writer) ≡ coerce_subject cyclic (user writer)))
ensure_permissions_iff_example =
    ensure_permissions_iff cyclic (user writer) ("posts:edit" ∷ "users:edit" ∷ []) false none
      (coerce_subject cyclic (user writer))

named : normalize_identifier " Posts:Edit" ≢ ""
unfolding lower strip strip_end strip_start is_space push_stripped translate normalize_identifier
named h = cc h

authorize_owner_or_permission_iff_example :
    (authorize_owner_or_permission cyclic (user writer) " Posts:Edit" (some 8) none "no"
      ≡ inr (coerce_subject cyclic (user writer)))
    ↔ ((is_resource_owner cyclic (user writer) (some 8) none
          || has_permission cyclic (user writer) " Posts:Edit")
        ≡ true)
authorize_owner_or_permission_iff_example =
    authorize_owner_or_permission_iff cyclic (user writer) " Posts:Edit" (some 8) none "no" named
