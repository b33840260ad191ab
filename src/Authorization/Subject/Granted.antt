-- ===== src/Authorization/Subject/Granted.antt =====
-- The permissions of a subject are those that its claims name and those of the roles it leads to.
use mathlib.Core.Logic.{∥∥₁_elim}
use mathlib.Core.Bool.{So-prop}
use fast_api_boilerplate.Base.{
  ◌≡◌, sym, subst, ◌∙◌, ◌↔◌, ◌⊎◌, inl, inr, true, String, List, [], ◌∷◌, ◌++◌, arith, Bool-cases,
}
use fast_api_boilerplate.Base.Dict.{Dict}
use fast_api_boilerplate.Base.Sets.{
  member, member-append, member-append_three, member-cons, member-here, member-there, member-nil,
}
use fast_api_boilerplate.Authorization.{
  normalize_identifier, normalize_texts, PermissionPolicy, get_set, expand_roles, permissions_of,
  permissions_for_roles,
}
use fast_api_boilerplate.Authorization.Expansion.{
  Reached, given, inherited, Reached-expand_roles, member-expand_roles,
}
use fast_api_boilerplate.Authorization.Subject.{
  CurrentUser, user, normalize_claim_values, normalize_scope_values, user_roles, build_subject,
  holds, has_permission, coerce_subject,
}
use fast_api_boilerplate.Authorization.Subject.Identifiers.{
  AreIdentifiers, IsNormalized, member-normalize_texts, AreIdentifiers-normalize_texts,
  AreIdentifiers-Reached,
}

-- The policy's permission `name` for a user: a claim, a scope, or a role that the user's roles lead to.
pub data Granted (policy : PermissionPolicy) (current_user : CurrentUser) (name : String)
    : Type 0 where
  by_claim :
      member name (normalize_claim_values current_user.permissions) ≡ true
      → Granted policy current_user name
  by_scope :
      member name (normalize_scope_values current_user.scopes) ≡ true
      → Granted policy current_user name
  by_role :
      (role : String)
      → Reached policy.role_inheritance (normalize_texts (user_roles policy current_user)) role
      → member name (get_set role policy.role_permissions) ≡ true
      → Granted policy current_user name

permissions_of-Found :
    (name : String) (entries : Dict (List String)) (roles : List String)
    → member name (permissions_of entries roles) ≡ true
    → (role : String) × (member role roles ≡ true) × (member name (get_set role entries) ≡ true)
unfolding permissions_of
permissions_of-Found name entries [] m = absurd (member-nil name m)
permissions_of-Found name entries (role ∷ roles) m =
    elim (Bool-cases (member name (get_set role entries))) [
      | inl here ↦ (role, member-here role roles, here)
      | inr there ↦
          let (r, k, e) = permissions_of-Found name entries roles (
            ground
              (arith, member-append name (get_set role entries) (permissions_of entries roles))) in
          (r, member-there r role roles k, e)
    ]

permissions_of-member :
    (name role : String) (entries : Dict (List String)) (roles : List String)
    → member role roles ≡ true
    → member name (get_set role entries) ≡ true
    → member name (permissions_of entries roles) ≡ true
unfolding permissions_of
permissions_of-member name role entries [] m e = absurd (member-nil role m)
permissions_of-member name role entries (r ∷ roles) m e =
    let split = member-append name (get_set r entries) (permissions_of entries roles) in
    elim ((member-cons role r roles).0 m) [
      | inl same ↦ ground (arith, split, subst (λ z. member name (get_set z entries) ≡ true) same e)
      | inr rest ↦ ground (arith, split, permissions_of-member name role entries roles rest e)
    ]

-- What a set leads to leads nowhere else.
Reached-twice :
    (inheritance : Dict (List String)) (roles expanded : List String)
    → ((role : String) → member role expanded ≡ true → Reached inheritance roles role)
    → (role : String) → Reached inheritance expanded role
    → Reached inheritance roles role
Reached-twice inheritance roles expanded h role (given m) = h role m
Reached-twice inheritance roles expanded h role (inherited {role = parent} r m) =
    inherited (Reached-twice inheritance roles expanded h parent r) m

AreIdentifiers-expand_roles :
    (policy : PermissionPolicy) (roles : List String)
    → IsNormalized policy
    → AreIdentifiers (expand_roles policy roles)
AreIdentifiers-expand_roles policy roles normal role m =
    AreIdentifiers-Reached policy (normalize_texts roles) normal
      (AreIdentifiers-normalize_texts roles) role (Reached-expand_roles policy roles role m)

-- Expanding the roles of a normalized policy again adds none and drops none.
pub expand_roles_twice :
    (policy : PermissionPolicy) (roles : List String) (role : String)
    → IsNormalized policy
    → (member role (expand_roles policy (expand_roles policy roles)) ≡ true)
      ↔ (member role (expand_roles policy roles) ≡ true)
expand_roles_twice policy roles role normal = (
  λ m. member-expand_roles policy roles role (
      Reached-twice policy.role_inheritance (normalize_texts roles)
        (normalize_texts (expand_roles policy roles))
        (λ x k. Reached-expand_roles policy roles x (sym (kept x) ∙ k)) role
        (Reached-expand_roles policy (expand_roles policy roles) role m)),
  λ m. member-expand_roles policy (expand_roles policy roles) role (given (kept role ∙ m)),
)
  where
    kept :
        (x : String)
        → member x (normalize_texts (expand_roles policy roles))
          ≡ member x (expand_roles policy roles)
    kept x =
        member-normalize_texts x (expand_roles policy roles)
          (AreIdentifiers-expand_roles policy roles normal)

module _ (policy : PermissionPolicy) (current_user : CurrentUser) where
  abbrev sources : List String
  sources =
      permissions_for_roles policy (expand_roles policy (user_roles policy current_user))
      ++ normalize_claim_values current_user.permissions
      ++ normalize_scope_values current_user.scopes

  member-sources :
      (name : String)
      → (member name sources ≡ true) ↔ (
          (member name
              (permissions_for_roles policy (expand_roles policy (user_roles policy current_user)))
            ≡ true)
          ⊎ (member name (normalize_claim_values current_user.permissions) ≡ true)
          ⊎ (member name (normalize_scope_values current_user.scopes) ≡ true))
  member-sources name =
      member-append_three name
        (permissions_for_roles policy (expand_roles policy (user_roles policy current_user)))
        (normalize_claim_values current_user.permissions)
        (normalize_scope_values current_user.scopes)

  Granted-sources :
      IsNormalized policy
      → (name : String) → member name sources ≡ true
      → Granted policy current_user name
  unfolding permissions_for_roles
  Granted-sources normal name m =
      let roles = user_roles policy current_user in
      elim ((member-sources name).0 m) [
        | inl by_a_role ↦
            let (role, k, e) =
              permissions_of-Found name policy.role_permissions
                (expand_roles policy (expand_roles policy roles)) by_a_role in
            let once = (expand_roles_twice policy roles role normal).0 k in
            by_role role (Reached-expand_roles policy roles role once) e
        | inr (inl claimed) ↦ by_claim claimed
        | inr (inr scoped) ↦ by_scope scoped
      ]

  sources-Granted :
      IsNormalized policy
      → (name : String) → Granted policy current_user name
      → member name sources ≡ true
  unfolding permissions_for_roles
  sources-Granted normal name (by_claim m) = (member-sources name).1 (inr (inl m))
  sources-Granted normal name (by_scope m) = (member-sources name).1 (inr (inr m))
  sources-Granted normal name (by_role role r m) =
      let roles = user_roles policy current_user in
      let once = member-expand_roles policy roles role r in
      let twice = (expand_roles_twice policy roles role normal).1 once in
      (member-sources name).1 (
        inl (
          permissions_of-member name role policy.role_permissions
            (expand_roles policy (expand_roles policy roles)) twice m))

-- For a policy as `__post_init__` makes it, `has_permission` of a user is true exactly where the
-- permission or the wildcard is granted: by a permission claim, by a scope, or by a role that the
-- user's roles lead to.
pub has_permission_iff :
    (policy : PermissionPolicy) (current_user : CurrentUser) (permission : String)
    → IsNormalized policy
    → (has_permission policy (user current_user) permission ≡ true)
      ↔ ∥ Granted policy current_user (normalize_identifier permission)
          ⊎ Granted policy current_user policy.wildcard_permission ∥₁
unfolding has_permission holds coerce_subject build_subject
has_permission_iff policy current_user permission normal =
    let wildcard = policy.wildcard_permission in
    let name = normalize_identifier permission in
    (
      λ h. elim (Bool-cases (member name (sources policy current_user))) [
        | inl asked ↦ ∣ inl (Granted-sources policy current_user normal name asked) ∣₁
        | inr refused ↦
            ∣ inr (Granted-sources policy current_user normal wildcard (ground arith)) ∣₁
      ],
      λ g. ∥∥₁_elim g (So-prop _) (λ w. elim w [
        | inl asked ↦ ground (arith, sources-Granted policy current_user normal name asked)
        | inr all ↦ ground (arith, sources-Granted policy current_user normal wildcard all)
      ]),
    )
