-- ===== src/Base/Sets.antt =====
-- Python's `set` of texts, as a list. The program never depends on its order.
use Prim.Native.String.{String}
use text.Mathlib.Text.{◌==◌}
use text.Mathlib.TextEquality.{eq_iff}
use text.Mathlib.TextPositions.{eq_refl}
use mathlib.Core.Path.{◌≡◌, refl, ap, ◌∙◌, sym}
use mathlib.Core.Logic.{◌⊎◌, ◌≢◌, inl, inr, ◌↔◌, ∥∥₁_elim}
use mathlib.Core.Bool.{Bool, true, false, ◌||◌, So-prop}
use mathlib.Core.List.{List, [], ◌∷◌, ◌++◌}
use native.Mathlib.Omega.{arith}
use fast_api_boilerplate.Base.Tests.{if◌then◌else◌, Bool-cases}

-- `x in xs`
unfoldable pub member : String → List String → Bool
member x [] = false
member x (y ∷ ys) = (x == y) || member x ys

-- `[x for x in xs if not test(x)]`
unfoldable pub reject : (String → Bool) → List String → List String
reject test [] = []
reject test (x ∷ xs) = if test x then reject test xs else x ∷ reject test xs

-- `any(test(x) for x in xs)`
unfoldable pub any_of : (String → Bool) → List String → Bool
any_of test [] = false
any_of test (x ∷ xs) = test x || any_of test xs

pub member-append :
    (x : String) (xs ys : List String) → member x (xs ++ ys) ≡ (member x xs || member x ys)
unfolding member
member-append x [] ys = refl
member-append x (y ∷ xs) ys = ground (arith, member-append x xs ys)

pub member-here : (x : String) (xs : List String) → member x (x ∷ xs) ≡ true
unfolding member
member-here x xs = simp eq_refl

pub member-cons :
    (x y : String) (ys : List String)
    → (member x (y ∷ ys) ≡ true) ↔ ((x ≡ y) ⊎ (member x ys ≡ true))
unfolding member
member-cons x y ys = ground (arith, eq_iff x y)

pub member-there : (x y : String) (ys : List String) → member x ys ≡ true → member x (y ∷ ys) ≡ true
member-there x y ys m = (member-cons x y ys).1 (inr m)

pub reject_iff :
    (test : String → Bool) (xs : List String)
    → (reject test xs ≡ []) ↔ ((x : String) → member x xs ≡ true → test x ≡ true)
unfolding reject member
reject_iff test [] = (λ e x m. absurd (cc m), λ all. refl)
reject_iff test (y ∷ ys) = elim (Bool-cases (test y)) [
  | inl h ↦ (
    λ e x m. elim ((member-cons x y ys).0 m) [
      | inl same ↦ ap test same ∙ h
      | inr rest ↦ (reject_iff test ys).0 (rw h at e) x rest
    ],
    λ all. simp h ((reject_iff test ys).1 (λ x m. all x (member-there x y ys m))),
  )
  | inr h ↦ (λ e. absurd (cc (rw h at e)), λ all. absurd (cc (all y (member-here y ys), h)))
]

-- A member that meets the test.
abbrev pub Found : (String → Bool) → List String → Type 0
Found test xs = (x : String) × (member x xs ≡ true) × (test x ≡ true)

any_of-Found : (test : String → Bool) (xs : List String) → any_of test xs ≡ true → Found test xs
unfolding any_of
any_of-Found test [] e = absurd (cc e)
any_of-Found test (y ∷ ys) e = elim (Bool-cases (test y)) [
  | inl h ↦ (y, member-here y ys, h)
  | inr h ↦ let (x, m, t) = any_of-Found test ys (ground arith) in (x, member-there x y ys m, t)
]

any_of-member :
    (test : String → Bool) (x : String) (xs : List String)
    → member x xs ≡ true
    → test x ≡ true
    → any_of test xs ≡ true
unfolding any_of member
any_of-member test x [] m t = absurd (cc m)
any_of-member test x (y ∷ ys) m t = elim ((member-cons x y ys).0 m) [
  | inl same ↦ simp (sym (ap test same) ∙ t)
  | inr rest ↦ ground (arith, any_of-member test x ys rest t)
]

pub any_of_iff :
    (test : String → Bool) (xs : List String) → (any_of test xs ≡ true) ↔ ∥ Found test xs ∥₁
any_of_iff test xs = (
  λ e. ∣ any_of-Found test xs e ∣₁,
  λ found. ∥∥₁_elim found (So-prop _) (λ w. any_of-member test w.0 xs w.1 w.2),
)

pub member-nil : (x : String) → member x [] ≢ true
unfolding member
member-nil x m = cc m

pub member-append_three :
    (x : String) (xs ys zs : List String)
    → (member x (xs ++ ys ++ zs) ≡ true)
      ↔ ((member x xs ≡ true) ⊎ (member x ys ≡ true) ⊎ (member x zs ≡ true))
member-append_three x xs ys zs =
    ground (arith, member-append x (xs ++ ys) zs, member-append x xs ys)
