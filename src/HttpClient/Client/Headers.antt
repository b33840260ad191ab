-- ===== src/HttpClient/Client/Headers.antt =====
-- Which value of a header a request is sent with.
use text.Mathlib.TextEquality.{eq_iff}
use fast_api_boilerplate.Base.{
  ◌≡◌, refl, Bool, true, false, Option, none, some, String, [], ◌∷◌, arith, if◌then◌else◌, ◌∙◌, ap,
}
use fast_api_boilerplate.Base.Dict.{Dict, lookup, lookup-insert}
use fast_api_boilerplate.HttpClient.Client.{update, set_defaults, merge_headers}

-- The first of two values that is there.
abbrev pub or_else {ℓ} : {A : Type ℓ} → Option A → Option A → Option A
or_else none b = b
or_else (some a) b = some a

or_else_assoc {ℓ} :
    {A : Type ℓ} (a b c : Option A) → or_else (or_else a b) c ≡ or_else a (or_else b c)
or_else_assoc none b c = refl
or_else_assoc (some a) b c = refl

lookup-update :
    (key : String) (d new : Dict String)
    → lookup key (update d new) ≡ or_else (lookup key new) (lookup key d)
unfolding update lookup
lookup-update key d [] = refl
lookup-update key d ((k, v) ∷ new) =
    ground (arith, lookup-insert k key v (update d new), lookup-update key d new)

lookup-set_defaults :
    (key : String) (d new : Dict String)
    → lookup key (set_defaults d new) ≡ or_else (lookup key d) (lookup key new)
unfolding set_defaults lookup
lookup-set_defaults key d [] = ground arith
lookup-set_defaults key d ((k, v) ∷ new) =
    ground (
      arith,
      lookup-insert k key v (set_defaults d new),
      lookup-set_defaults key d new,
      eq_iff k key,
    )

abbrev pub given_value : Option (Dict String) → String → Option String
given_value none key = none
given_value (some headers) key = lookup key headers

-- The headers of a request take each name from the caller's headers first, then from the client's
-- default headers, and from the correlation headers last, these only where they are propagated.
pub merge_headers-lookup :
    (propagate : Bool) (default_headers : Dict String) (headers : Option (Dict String))
    (correlation : Dict String) (key : String)
    → lookup key (merge_headers propagate default_headers headers correlation)
      ≡ or_else (given_value headers key) (
          or_else (lookup key default_headers) (if propagate then lookup key correlation else none))
unfolding merge_headers
merge_headers-lookup true default_headers none correlation key =
    lookup-set_defaults key default_headers correlation
merge_headers-lookup true default_headers (some given) correlation key =
    lookup-set_defaults key (update default_headers given) correlation
    ∙ ap (λ o. or_else o (lookup key correlation)) (lookup-update key default_headers given)
    ∙ or_else_assoc (lookup key given) (lookup key default_headers) (lookup key correlation)
merge_headers-lookup false default_headers none correlation key = ground arith
merge_headers-lookup false default_headers (some given) correlation key =
    ground (arith, lookup-update key default_headers given)
