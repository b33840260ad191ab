-- ===== src/Authorization/Checks/Decided.antt =====
-- Which subjects the checks let through.
use mathlib.Core.Logic.{∥∥₁_map}
use fast_api_boilerplate.Base.{
  ℕ, ◌≡◌, refl, ◌≢◌, ◌↔◌, ◌⊎◌, inl, inr, Bool, true, false, Option, String, List, [], ◌∷◌, ◌||◌,
  arith, if◌then◌else◌, eq_iff,
}
use fast_api_boilerplate.Base.Sets.{member, Found, reject, any_of, reject_iff, any_of_iff}
use fast_api_boilerplate.Authorization.{PermissionPolicy, normalize_texts, normalize_identifier}
use fast_api_boilerplate.Authorization.Subject.{
  AuthorizationSubject, Subject, coerce_subject, holds, is_resource_owner, has_permission,
}
use fast_api_boilerplate.Authorization.Checks.{
  Checked, AuthorizationError, value_error, Denial, missing_roles, requires_one_role,
  missing_permissions, requires_one_permission, denial, refuse_missing, ensure_roles, check_roles,
  ensure_permissions, check_permissions, normalize_required_values, authorize_permission,
  authorize_owner_or_permission,
}

-- What the flag `require_all` asks of the tests of the required names.
abbrev pub Satisfies : Bool → (String → Bool) → List String → Type 0
Satisfies true test names = (name : String) → member name names ≡ true → test name ≡ true
Satisfies false test names = ∥ Found test names ∥₁

refuse_missing_iff :
    (text : Option String) (missing : List String → Denial) (subject s : AuthorizationSubject)
    (names : List String)
    → (refuse_missing text missing subject names ≡ inr s) ↔ ((names ≡ []) × (subject ≡ s))
refuse_missing_iff text missing subject s [] = ground arith
refuse_missing_iff text missing subject s (x ∷ names) = ground arith

choose_iff :
    (found : Bool) (error : AuthorizationError) (subject s : AuthorizationSubject)
    → ((if found then inr subject else inl error) ≡ inr s) ↔ ((found ≡ true) × (subject ≡ s))
choose_iff true error subject s = ground arith
choose_iff false error subject s = ground arith

Found-swap :
    (xs ys : List String) → ∥ Found (λ x. member x ys) xs ∥₁ → ∥ Found (λ x. member x xs) ys ∥₁
Found-swap xs ys found = ∥∥₁_map found (λ w. (w.0, w.2, w.1))

check_roles_iff :
    (subject s : AuthorizationSubject) (require_all : Bool) (text : Option String)
    (names : List String)
    → (check_roles subject require_all text (inr names) ≡ inr s)
      ↔ (Satisfies require_all (λ name. member name subject.roles) names × (subject ≡ s))
unfolding check_roles
check_roles_iff subject s true text names =
    let test = λ (name : String). member name subject.roles in
    let refusal = refuse_missing_iff text missing_roles subject s (reject test names) in
    ground (arith, refusal, reject_iff test names)
check_roles_iff subject s false text names =
    let test = λ (role : String). member role names in
    let any = any_of_iff test subject.roles in
    let error = denial text (requires_one_role names) in
    let choice = choose_iff (any_of test subject.roles) error subject s in
    (
      λ e. (Found-swap subject.roles names (any.0 (choice.0 e).0), (choice.0 e).1),
      λ w. choice.1 (any.1 (Found-swap names subject.roles w.0), w.1),
    )

check_permissions_iff :
    (policy : PermissionPolicy) (subject s : AuthorizationSubject) (require_all : Bool)
    (text : Option String) (names : List String)
    → (check_permissions policy subject require_all text (inr names) ≡ inr s)
      ↔ (Satisfies require_all (holds policy subject) names × (subject ≡ s))
unfolding check_permissions
check_permissions_iff policy subject s true text names =
    let test = holds policy subject in
    let refusal = refuse_missing_iff text missing_permissions subject s (reject test names) in
    ground (arith, refusal, reject_iff test names)
check_permissions_iff policy subject s false text names =
    let test = holds policy subject in
    let any = any_of_iff test names in
    let error = denial text (requires_one_permission names) in
    let choice = choose_iff (any_of test names) error subject s in
    (λ e. (any.0 (choice.0 e).0, (choice.0 e).1), λ w. choice.1 (any.1 w.0, w.1))

-- What is required is there, and `check` lets the subject through.
required_iff :
    (check : AuthorizationError ⊎ List String → Checked) (label : String) (P : List String → Type 0)
    (values : List String) (subject s : AuthorizationSubject)
    → ((error : AuthorizationError) → check (inl error) ≡ inl error)
    → ((names : List String) → (check (inr names) ≡ inr s) ↔ (P names × (subject ≡ s)))
    → (check (normalize_required_values values label) ≡ inr s)
      ↔ ((normalize_texts values ≢ []) × P (normalize_texts values) × (subject ≡ s))
unfolding normalize_required_values
required_iff check label P values subject s fails passes = go (normalize_texts values)
  where
    go :
        (names : List String)
        → (check (elim names [ [] ↦ inl (value_error label) | value ∷ rest ↦ inr (value ∷ rest) ])
            ≡ inr s)
          ↔ ((names ≢ []) × P names × (subject ≡ s))
    go [] = (λ e. absurd (cc (fails (value_error label), e)), λ w. absurd (w.0 refl))
    go (value ∷ rest) = (
      λ e. let (p, q) = (passes (value ∷ rest)).0 e in (λ h. cc h, p, q),
      λ w. (passes (value ∷ rest)).1 (w.1, w.2),
    )

-- `ensure_roles` returns a subject exactly where it is the caller's own one, some required role is
-- left when blank ones are dropped, and the subject has all of these roles, or one of them without
-- `require_all`.
pub ensure_roles_iff :
    (policy : PermissionPolicy) (subject : Subject) (required_roles : List String)
    (require_all : Bool) (text : Option String) (s : AuthorizationSubject)
    → (ensure_roles policy subject required_roles require_all text ≡ inr s) ↔ (
        (normalize_texts required_roles ≢ [])
        × Satisfies require_all
            (λ role. member role (coerce_subject policy subject).roles)
            (normalize_texts required_roles)
        × (coerce_subject policy subject ≡ s))
unfolding ensure_roles check_roles
ensure_roles_iff policy subject required_roles require_all text s =
    let resolved = coerce_subject policy subject in
    required_iff (check_roles resolved require_all text) "role"
      (Satisfies require_all (λ role. member role resolved.roles)) required_roles resolved s
      (λ error. refl) (check_roles_iff resolved s require_all text)

-- `ensure_permissions` returns a subject exactly where it is the caller's own one, some required
-- permission is left when blank ones are dropped, and the subject holds each of these, itself or by
-- the wildcard, or one of them without `require_all`.
pub ensure_permissions_iff :
    (policy : PermissionPolicy) (subject : Subject) (required_permissions : List String)
    (require_all : Bool) (text : Option String) (s : AuthorizationSubject)
    → (ensure_permissions policy subject required_permissions require_all text ≡ inr s) ↔ (
        (normalize_texts required_permissions ≢ [])
        × Satisfies require_all
            (holds policy (coerce_subject policy subject))
            (normalize_texts required_permissions)
        × (coerce_subject policy subject ≡ s))
unfolding ensure_permissions check_permissions
ensure_permissions_iff policy subject required_permissions require_all text s =
    let resolved = coerce_subject policy subject in
    required_iff (check_permissions policy resolved require_all text) "permission"
      (Satisfies require_all (holds policy resolved)) required_permissions resolved s
      (λ error. refl) (check_permissions_iff policy resolved s require_all text)

-- For a permission that is not blank, `authorize_owner_or_permission` lets through exactly the owners
-- and those for whom `has_permission` is true; it returns the subject that the policy builds.
pub authorize_owner_or_permission_iff :
    (policy : PermissionPolicy) (subject : Subject) (permission : String) (owner_user_id : Option ℕ)
    (owner_username : Option String) (text : String)
    → normalize_identifier permission ≢ ""
    → (authorize_owner_or_permission policy subject permission owner_user_id owner_username text
        ≡ inr (coerce_subject policy subject))
      ↔ ((is_resource_owner policy subject owner_user_id owner_username
            || has_permission policy subject permission)
          ≡ true)
unfolding authorize_owner_or_permission authorize_permission is_resource_owner has_permission
    coerce_subject normalize_texts ensure_permissions normalize_required_values check_permissions
    reject
authorize_owner_or_permission_iff policy subject permission owner_user_id owner_username text
      given =
    ground (arith, eq_iff (normalize_identifier permission) "")
