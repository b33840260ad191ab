-- ===== src/Authorization/Checks.antt =====
-- The checks that refuse a subject with an error. A refusal keeps the names that its text would list.
pub mod Decided
use fast_api_boilerplate.Base.{
  ℕ, Bool, true, false, Option, none, some, String, List, [], ◌∷◌, ◌⊎◌, inl, inr, ◌||◌, str_eq,
  if◌then◌else◌,
}
use fast_api_boilerplate.Base.Sets.{member, reject, any_of}
use fast_api_boilerplate.Authorization.{PermissionPolicy, normalize_texts}
use fast_api_boilerplate.Authorization.Subject.{
  AuthorizationSubject, Subject, built, coerce_subject, holds, is_resource_owner,
}

-- The text of a `ForbiddenException`: the caller's, or one that names roles or permissions.
pub data Denial : Type 0 where
  message : String → Denial
  missing_roles requires_one_role missing_permissions requires_one_permission : List String → Denial

pub data AuthorizationError : Type 0 where
  value_error : String → AuthorizationError
  forbidden : Denial → AuthorizationError

abbrev pub Checked : Type 0
Checked = AuthorizationError ⊎ AuthorizationSubject

-- `message or text`
abbrev pub denial : Option String → Denial → AuthorizationError
denial none text = forbidden text
denial (some given) text = if str_eq given "" then forbidden text else forbidden (message given)

unfoldable pub normalize_required_values : List String → String → AuthorizationError ⊎ List String
normalize_required_values values label = elim (normalize_texts values) [
  | [] ↦ inl (value_error label)
  | value ∷ rest ↦ inr (value ∷ rest)
]

abbrev pub refuse_missing :
    Option String → (List String → Denial) → AuthorizationSubject → List String → Checked
refuse_missing text missing subject [] = inr subject
refuse_missing text missing subject (value ∷ values) = inl (denial text (missing (value ∷ values)))

unfoldable pub check_roles :
    AuthorizationSubject → Bool → Option String → AuthorizationError ⊎ List String → Checked
check_roles subject require_all text (inl error) = inl error
check_roles subject true text (inr roles) =
    refuse_missing text missing_roles subject (reject (λ role. member role subject.roles) roles)
check_roles subject false text (inr roles) =
    if any_of (λ role. member role roles) subject.roles
    then inr subject
    else inl (denial text (requires_one_role roles))

unfoldable pub ensure_roles :
    PermissionPolicy → Subject → List String → Bool → Option String → Checked
ensure_roles policy subject required_roles require_all text =
    check_roles (coerce_subject policy subject) require_all text
      (normalize_required_values required_roles "role")

unfoldable pub check_permissions :
    PermissionPolicy
    → AuthorizationSubject
    → Bool
    → Option String
    → AuthorizationError ⊎ List String
    → Checked
check_permissions policy subject require_all text (inl error) = inl error
check_permissions policy subject true text (inr permissions) =
    refuse_missing text missing_permissions subject (reject (holds policy subject) permissions)
check_permissions policy subject false text (inr permissions) =
    if any_of (holds policy subject) permissions
    then inr subject
    else inl (denial text (requires_one_permission permissions))

unfoldable pub ensure_permissions :
    PermissionPolicy → Subject → List String → Bool → Option String → Checked
ensure_permissions policy subject required_permissions require_all text =
    check_permissions policy (coerce_subject policy subject) require_all text
      (normalize_required_values required_permissions "permission")

unfoldable pub authorize_permission : PermissionPolicy → Subject → String → String → Checked
authorize_permission policy subject permission text =
    ensure_permissions policy subject (permission ∷ []) true (some text)

unfoldable pub authorize_owner_or_permission :
    PermissionPolicy → Subject → String → Option ℕ → Option String → String → Checked
authorize_owner_or_permission policy subject permission owner_user_id owner_username text =
    let resolved_subject = coerce_subject policy subject in
    if is_resource_owner policy (built resolved_subject) owner_user_id owner_username
    then inr resolved_subject
    else authorize_permission policy (built resolved_subject) permission text
