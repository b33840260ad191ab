-- ===== src/Authorization/Subject/Identifiers.antt =====
-- Normalized names: `_normalize_identifier` keeps them, and every policy's inheritance has only such.
use fast_api_boilerplate.Base.{
  ◌≡◌, refl, sym, ap, ◌∙◌, ◌≢◌, inl, inr, true, String, List, [], ◌∷◌, arith, str_eq, eq_iff,
  Bool-cases,
}
use fast_api_boilerplate.Base.Dict.{Dict, lookup, lookup-insert}
use fast_api_boilerplate.Base.Sets.{member, member-cons, member-here, member-there}
use fast_api_boilerplate.Base.Strings.Normal.{normal_twice}
use fast_api_boilerplate.Authorization.{
  ClaimItem, text_item, other_item, Claim, single, items, absent, dict, other, add_nonempty,
  normalize_identifier, normalize_identifier_set, normalize_texts, add_entry, add_mapping,
  normalize_mapping, PermissionPolicy, permission_policy, get_set,
}
use fast_api_boilerplate.Authorization.Expansion.{Reached, given, inherited}
use fast_api_boilerplate.Authorization.Subject.{normalize_claim_values}

-- A text that `_normalize_identifier` leaves as it is, and not the empty one.
abbrev pub IsIdentifier : String → Type 0
IsIdentifier name = (normalize_identifier name ≡ name) × (name ≢ "")

abbrev pub AreIdentifiers : List String → Type 0
AreIdentifiers names = (name : String) → member name names ≡ true → IsIdentifier name

-- What `__post_init__` makes of a policy's inheritance.
abbrev pub IsNormalized : PermissionPolicy → Type 0
IsNormalized policy = (role : String) → AreIdentifiers (get_set role policy.role_inheritance)

AreIdentifiers-add_nonempty :
    (value : String) (values : List String)
    → AreIdentifiers values
    → AreIdentifiers (add_nonempty (normalize_identifier value) values)
unfolding normalize_identifier
AreIdentifiers-add_nonempty value values h name m =
    elim (Bool-cases (str_eq (normalize_identifier value) "")) [
      | inl empty ↦ h name (rw empty at m)
      | inr full ↦ elim ((member-cons name (normalize_identifier value) values).0 (rw full at m)) [
        | inl same ↦ (
          ap normalize_identifier same ∙ normal_twice value ∙ sym same,
          ground (arith, eq_iff (normalize_identifier value) ""),
        )
        | inr rest ↦ h name rest
      ]
    ]

AreIdentifiers-nil : AreIdentifiers []
unfolding member
AreIdentifiers-nil name m = absurd (cc m)

pub AreIdentifiers-normalize_texts :
    (values : List String) → AreIdentifiers (normalize_texts values)
unfolding normalize_texts
AreIdentifiers-normalize_texts [] = AreIdentifiers-nil
AreIdentifiers-normalize_texts (value ∷ values) =
    AreIdentifiers-add_nonempty value (normalize_texts values)
      (AreIdentifiers-normalize_texts values)

-- Normalizing identifiers again keeps the set.
pub member-normalize_texts :
    (name : String) (values : List String)
    → AreIdentifiers values
    → member name (normalize_texts values) ≡ member name values
unfolding normalize_texts member
member-normalize_texts name [] h = refl
member-normalize_texts name (value ∷ values) h =
    let (same, full) = h value (member-here value values) in
    let rest = member-normalize_texts name values (λ x m. h x (member-there x value values m)) in
    ground (arith, same, full, rest, eq_iff (normalize_identifier value) "")

AreIdentifiers-items : (values : List ClaimItem) → AreIdentifiers (normalize_identifier_set values)
unfolding normalize_identifier_set
AreIdentifiers-items [] = AreIdentifiers-nil
AreIdentifiers-items (text_item value ∷ values) =
    AreIdentifiers-add_nonempty value (normalize_identifier_set values)
      (AreIdentifiers-items values)
AreIdentifiers-items (other_item ∷ values) = AreIdentifiers-items values

AreIdentifiers-claim : (claim : Claim) → AreIdentifiers (normalize_claim_values claim)
unfolding normalize_claim_values
AreIdentifiers-claim (single value) = AreIdentifiers-add_nonempty value [] AreIdentifiers-nil
AreIdentifiers-claim (items values) = AreIdentifiers-items values
AreIdentifiers-claim absent = AreIdentifiers-nil
AreIdentifiers-claim dict = AreIdentifiers-nil
AreIdentifiers-claim other = AreIdentifiers-nil

pub AreIdentifiers-Reached :
    (policy : PermissionPolicy) (roles : List String)
    → IsNormalized policy
    → AreIdentifiers roles
    → (role : String) → Reached policy.role_inheritance roles role
    → IsIdentifier role
AreIdentifiers-Reached policy roles normal h role (given m) = h role m
AreIdentifiers-Reached policy roles normal h role (inherited {role = parent} r m) =
    normal parent role m

AreIdentifiers-add_entry :
    (role key : String) (values : List String) (normalized : Dict (List String))
    → AreIdentifiers (get_set role normalized)
    → AreIdentifiers (get_set role (add_entry key values normalized))
unfolding add_entry get_set
AreIdentifiers-add_entry role key values normalized h =
    elim (Bool-cases (str_eq (normalize_identifier key) "")) [
      | inl blank ↦ simp blank h
      | inr named ↦ elim (Bool-cases (str_eq (normalize_identifier key) role)) [
        | inl same ↦ simp (named, lookup-insert, same) (AreIdentifiers-normalize_texts values)
        | inr differs ↦ simp (named, lookup-insert, differs) h
      ]
    ]

AreIdentifiers-add_mapping :
    (role : String) (normalized entries : Dict (List String))
    → AreIdentifiers (get_set role normalized)
    → AreIdentifiers (get_set role (add_mapping normalized entries))
unfolding add_mapping
AreIdentifiers-add_mapping role normalized [] h = h
AreIdentifiers-add_mapping role normalized ((key, values) ∷ entries) h =
    AreIdentifiers-add_mapping role (add_entry key values normalized) entries
      (AreIdentifiers-add_entry role key values normalized h)

-- `__post_init__` leaves an inheritance of identifiers, so every policy has one, an extended one too.
pub IsNormalized-permission_policy :
    (role_permissions role_inheritance : Dict (List String))
    (default_role admin_role superuser_role wildcard : String)
    → IsNormalized (
        permission_policy role_permissions role_inheritance default_role admin_role superuser_role
          wildcard)
unfolding permission_policy normalize_mapping get_set lookup
IsNormalized-permission_policy role_permissions role_inheritance d a s w role =
    AreIdentifiers-add_mapping role [] role_inheritance AreIdentifiers-nil
