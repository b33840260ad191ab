-- ===== src/Base/Payloads.antt =====
-- Python dicts of untyped values: what a key holds, and entries that are written if there is a value.
use Prim.Native.Nat.{ℕ}
use Prim.Native.String.{String}
use text.Mathlib.Text.{◌==◌}
use mathlib.Core.Path.{◌≡◌, refl}
use mathlib.Core.Bool.{false}
use mathlib.Core.Logic.{inl, inr}
use mathlib.Core.Option.{Option, none, some}
use mathlib.Core.List.{[], ◌∷◌}
use fast_api_boilerplate.Base.Dict.{Dict, lookup}
use fast_api_boilerplate.Base.Tests.{if◌then◌else◌, Bool-cases}

-- A value that is not `None`; `T` is the type of points in time.
pub data Value (J T : Type 0) : Type 0 where
  int_value : ℕ → Value J T
  str_value : String → Value J T
  dict_value : Dict J → Value J T
  time_value : T → Value J T

-- `None` is `none`.
abbrev pub Payload : Type 0 → Type 0 → Type 0
Payload J T = Dict (Option (Value J T))

module _ {J T : Type 0} where
  abbrev pub held : Option (Option (Value J T)) → Option (Value J T)
  held none = none
  held (some value) = value

  -- `payload.get(key)`
  unfoldable pub get : String → Payload J T → Option (Value J T)
  get key payload = held (lookup key payload)

  -- `if value is not None: payload[key] = value`, for a new key
  unfoldable pub entry : String → Option (Value J T) → Payload J T → Payload J T
  entry key none payload = payload
  entry key (some value) payload = (key, some value) ∷ payload

  abbrev pub first_value : Option (Value J T) → Option (Value J T) → Option (Value J T)
  first_value none other = other
  first_value (some value) other = some value

  pub get-entry :
      (key k : String) (value : Option (Value J T)) (payload : Payload J T)
      → get key (entry k value payload)
        ≡ (if k == key then first_value value (get key payload) else get key payload)
  unfolding get entry lookup
  get-entry key k none payload = elim (Bool-cases (k == key)) [ inl h ↦ simp h | inr h ↦ simp h ]
  get-entry key k (some value) payload = elim (Bool-cases (k == key)) [
    | inl h ↦ simp (h, lookup)
    | inr h ↦ simp (h, lookup)
  ]

  pub first_value-none : (value : Option (Value J T)) → first_value value none ≡ value
  first_value-none none = refl
  first_value-none (some value) = refl

  pub get-empty : (key : String) → get key [] ≡ none
  unfolding get lookup
  get-empty key = refl

  pub ruleset written = (get-entry, get-empty, first_value-none)

  abbrev pub text_value : Option String → Option (Value J T)
  text_value none = none
  text_value (some text) = some (str_value text)

  pub lookup-entry_other :
      (key k : String) (value : Option (Value J T)) (payload : Payload J T)
      → (k == key) ≡ false
      → lookup key (entry k value payload) ≡ lookup key payload
  unfolding entry lookup
  lookup-entry_other key k none payload h = refl
  lookup-entry_other key k (some value) payload h = simp (h, lookup)
