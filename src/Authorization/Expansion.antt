-- ===== src/Authorization/Expansion.antt =====
-- The loop of `expand_roles` ends, and finds the roles that can be reached.
use fast_api_boilerplate.Base.{
  ℕ, zero, suc, ◌+◌, ◌≤◌, ◌≡◌, refl, ◌↔◌, ◌⊎◌, inl, inr, true, false, Option, none, some, String,
  List, [], ◌∷◌, length, eq_iff, if◌then◌else◌, arith, Bool-cases, subst, sym, ◌∙◌,
}
use mathlib.Core.Bool.{So-prop}
use mathlib.Core.Logic.{∥∥₁_elim}
use fast_api_boilerplate.Base.Dict.{Dict, lookup}
use fast_api_boilerplate.Base.Sets.{member, member-cons, member-here, member-there}
use fast_api_boilerplate.Authorization.{
  PermissionPolicy, get_set, push_all, expand_loop, inherited_count, expand_rounds,
  expand_normalized, expand_roles, normalize_texts, or_empty,
}

length-push_all :
    (values pending : List String)
    → length (push_all values pending) ≡ length values + length pending
unfolding push_all
length-push_all [] pending = omega arith
length-push_all (value ∷ values) pending = omega (arith, length-push_all values (value ∷ pending))

member-push_all :
    (x : String) (values pending : List String)
    → (member x (push_all values pending) ≡ true)
      ↔ ((member x values ≡ true) ⊎ (member x pending ≡ true))
unfolding push_all member
member-push_all x [] pending = ground arith
member-push_all x (value ∷ values) pending =
    ground (arith, member-push_all x values (value ∷ pending))

-- The inherited roles that are still to be pushed.
weight : Dict (List String) → List String → ℕ
weight [] resolved = 0
weight ((role, inherited) ∷ inheritance) resolved =
    if member role resolved
    then weight inheritance resolved
    else length inherited + weight inheritance resolved

weight_start :
    (inheritance : Dict (List String)) → weight inheritance [] ≡ inherited_count inheritance
unfolding weight inherited_count member
weight_start [] = refl
weight_start ((role, inherited) ∷ inheritance) = omega (arith, weight_start inheritance)

weight_grows :
    (inheritance : Dict (List String)) (role : String) (resolved : List String)
    → weight inheritance (role ∷ resolved) ≤ weight inheritance resolved
unfolding weight member
weight_grows [] role resolved = omega arith
weight_grows ((key, inherited) ∷ inheritance) role resolved =
    ground (arith, weight_grows inheritance role resolved)

weight-get_set :
    (inheritance : Dict (List String)) (role : String) (resolved : List String)
    → member role resolved ≡ false
    → weight inheritance (role ∷ resolved) + length (get_set role inheritance)
      ≤ weight inheritance resolved
unfolding weight member get_set lookup
weight-get_set [] role resolved new = omega arith
weight-get_set ((key, inherited) ∷ inheritance) role resolved new = ground (
  arith,
  eq_iff key role,
  weight_grows inheritance role resolved,
  weight-get_set inheritance role resolved new,
)

expand_loop_ends :
    (inheritance : Dict (List String)) (fuel : ℕ) (pending resolved : List String)
    → length pending + weight inheritance resolved ≤ fuel
    → (result : List String) × (expand_loop inheritance fuel pending resolved ≡ some result)
unfolding expand_loop
expand_loop_ends inheritance fuel [] resolved h = (resolved, refl)
expand_loop_ends inheritance zero (role ∷ pending) resolved h = absurd (omega arith)
expand_loop_ends inheritance (suc fuel) (role ∷ pending) resolved h =
    elim (Bool-cases (member role resolved)) [
      | inl known ↦
          simp (known, expand_loop)
            (expand_loop_ends inheritance fuel pending resolved (omega arith))
      | inr new ↦
          let pushed = length-push_all (get_set role inheritance) pending in
          let falls = weight-get_set inheritance role resolved new in
          simp (new, expand_loop)
            (expand_loop_ends inheritance fuel (push_all (get_set role inheritance) pending)
              (role ∷ resolved) (omega arith))
    ]

some-or_empty :
    {o : Option (List String)} {values : List String} → o ≡ some values → o ≡ some (or_empty o)
some-or_empty {o = none} h = h ∙ absurd (cc h)
some-or_empty {o = some values} h = refl

-- The loop of `expand_roles` ends for every policy, inheritance with cycles too: it has returned after
-- at most one round for each of the pending roles and each inherited role that the policy lists.
pub expand_normalized_terminates :
    (policy : PermissionPolicy) (pending : List String)
    → expand_loop policy.role_inheritance (expand_rounds policy.role_inheritance pending) pending []
      ≡ some (expand_normalized policy pending)
unfolding expand_normalized expand_rounds
expand_normalized_terminates policy pending =
    let inheritance = policy.role_inheritance in
    let (result, ends) =
      expand_loop_ends inheritance (length pending + inherited_count inheritance) pending []
        (omega (arith, weight_start inheritance)) in
    some-or_empty ends

-- The roles that a set of roles leads to.
pub data Reached (inheritance : Dict (List String)) (roles : List String) : String → Type 0 where
  given : {role : String} → member role roles ≡ true → Reached inheritance roles role
  inherited :
      {role other : String}
      → Reached inheritance roles role
      → member other (get_set role inheritance) ≡ true
      → Reached inheritance roles other

module _ (inheritance : Dict (List String)) (roles : List String) where
  record Inv (pending resolved : List String) : Type 0 where
    waits : (role : String) → member role pending ≡ true → Reached inheritance roles role
    sound : (role : String) → member role resolved ≡ true → Reached inheritance roles role
    starts :
        (role : String)
        → member role roles ≡ true
        → (member role pending ≡ true) ⊎ (member role resolved ≡ true)
    closed :
        (role other : String)
        → member role resolved ≡ true
        → member other (get_set role inheritance) ≡ true
        → (member other pending ≡ true) ⊎ (member other resolved ≡ true)

  Inv-skip :
      (role : String) (pending resolved : List String)
      → member role resolved ≡ true
      → Inv (role ∷ pending) resolved
      → Inv pending resolved
  Inv-skip role pending resolved known inv = record {
    waits = λ x m. ground (arith, inv.waits x, member-cons x role pending);
    sound = inv.sound;
    starts = λ x m. ground (arith, inv.starts x m, member-cons x role pending);
    closed = λ x y m e. ground (arith, inv.closed x y m e, member-cons y role pending);
  }

  Inv-resolve :
      (role : String) (pending resolved : List String)
      → Inv (role ∷ pending) resolved
      → Inv (push_all (get_set role inheritance) pending) (role ∷ resolved)
  Inv-resolve role pending resolved inv =
      let to_role = inv.waits role (member-here role pending) in
      let pushed = λ (x : String). member-push_all x (get_set role inheritance) pending in
      record {
        waits = λ x m. elim ((pushed x).0 m) [
          | inl new ↦ inherited to_role new
          | inr old ↦ inv.waits x (member-there x role pending old)
        ];
        sound = λ x m. elim ((member-cons x role resolved).0 m) [
          | inl same ↦ subst (Reached inheritance roles) (sym same) to_role
          | inr old ↦ inv.sound x old
        ];
        starts = λ x m. ground (
          arith,
          inv.starts x m,
          pushed x,
          member-cons x role pending,
          member-cons x role resolved,
        );
        closed = λ x y m e. elim ((member-cons x role resolved).0 m) [
          | inl same ↦
              inl ((pushed y).1 (inl (subst (λ z. member y (get_set z inheritance) ≡ true) same e)))
          | inr old ↦ ground (
            arith,
            inv.closed x y old e,
            pushed y,
            member-cons y role pending,
            member-cons y role resolved,
          )
        ];
      }

  Inv-start :
      (pending : List String)
      → ((x : String) → (member x pending ≡ true) ↔ (member x roles ≡ true))
      → Inv pending []
  unfolding member
  Inv-start pending same = record {
    waits = λ x m. given ((same x).0 m);
    sound = λ x m. absurd (cc m);
    starts = λ x m. inl ((same x).1 m);
    closed = λ x y m e. absurd (cc m);
  }

  Inv-expand_loop :
      (fuel : ℕ) (pending resolved result : List String)
      → Inv pending resolved
      → expand_loop inheritance fuel pending resolved ≡ some result
      → Inv [] result
  unfolding expand_loop
  Inv-expand_loop fuel [] resolved result inv h = subst (Inv []) (ground arith) inv
  Inv-expand_loop zero (role ∷ pending) resolved result inv h = absurd (cc h)
  Inv-expand_loop (suc fuel) (role ∷ pending) resolved result inv h =
      elim (Bool-cases (member role resolved)) [
        | inl known ↦
            Inv-expand_loop fuel pending resolved result (Inv-skip role pending resolved known inv)
              (rw (known, expand_loop) at h)
        | inr new ↦
            Inv-expand_loop fuel (push_all (get_set role inheritance) pending) (role ∷ resolved)
              result (Inv-resolve role pending resolved inv) (rw (new, expand_loop) at h)
      ]

  complete :
      (result : List String)
      → Inv [] result
      → {role : String} → Reached inheritance roles role
      → member role result ≡ true
  unfolding member
  complete result inv (given {role} m) = ground (arith, inv.starts role m)
  complete result inv (inherited {role} {other} r m) =
      ground (arith, inv.closed role other (complete result inv r) m)

Inv-expand_roles :
    (policy : PermissionPolicy) (roles : List String)
    → Inv policy.role_inheritance (normalize_texts roles) [] (expand_roles policy roles)
unfolding expand_roles member
Inv-expand_roles policy roles =
    let pending = push_all (normalize_texts roles) [] in
    let inheritance = policy.role_inheritance in
    let start =
      Inv-start inheritance (normalize_texts roles) pending
        (λ x. ground (arith, member-push_all x (normalize_texts roles) [])) in
    Inv-expand_loop inheritance (normalize_texts roles) (expand_rounds inheritance pending) pending
      [] (expand_normalized policy pending) start (expand_normalized_terminates policy pending)

pub Reached-expand_roles :
    (policy : PermissionPolicy) (roles : List String) (role : String)
    → member role (expand_roles policy roles) ≡ true
    → Reached policy.role_inheritance (normalize_texts roles) role
Reached-expand_roles policy roles role m = (Inv-expand_roles policy roles).sound role m

pub member-expand_roles :
    (policy : PermissionPolicy) (roles : List String) (role : String)
    → Reached policy.role_inheritance (normalize_texts roles) role
    → member role (expand_roles policy roles) ≡ true
member-expand_roles policy roles role =
    complete policy.role_inheritance (normalize_texts roles) _ (Inv-expand_roles policy roles)

-- `expand_roles` gives exactly the roles that the normalized given roles lead to, in any number of
-- inheritance steps.
pub expand_roles_correct :
    (policy : PermissionPolicy) (roles : List String) (role : String)
    → (member role (expand_roles policy roles) ≡ true)
      ↔ ∥ Reached policy.role_inheritance (normalize_texts roles) role ∥₁
expand_roles_correct policy roles role = (
  λ m. ∣ Reached-expand_roles policy roles role m ∣₁,
  λ r. ∥∥₁_elim r (So-prop _) (member-expand_roles policy roles role),
)
