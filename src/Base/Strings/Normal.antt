-- ===== src/Base/Strings/Normal.antt =====
-- Stripping and lowering again changes nothing.
use Prim.Native.Char.{Char, code}
use Prim.Native.String.{String}
use mathlib.Core.Path.{◌≡◌, refl, ap, ◌∙◌, sym}
use mathlib.Core.Logic.{◌⊎◌, inl, inr}
use mathlib.Core.Bool.{Bool, true, false, ◌&&◌}
use native.Mathlib.Omega.{arith}
use text.Mathlib.TextEquality.{Char-path}
use fast_api_boilerplate.Base.Tests.{Bool-cases, ◌==◌}
use fast_api_boilerplate.Base.Strings.{
  is_space, translate, lower_char, lower, strip_start, push_stripped, strip_end, strip,
}

strip_start-push_stripped :
    (c : Char) (t : String)
    → is_space c ≡ false
    → strip_start (push_stripped c t) ≡ push_stripped c t
unfolding strip_start push_stripped
strip_start-push_stripped c String.[] h = simp (h, strip_start)
strip_start-push_stripped c (String.◌∷◌ d s) h = simp h

strip_start-strip_end :
    (s : String) → strip_start (strip_end (strip_start s)) ≡ strip_end (strip_start s)
unfolding strip_start strip_end
strip_start-strip_end String.[] = refl
strip_start-strip_end (String.◌∷◌ c s) = elim (Bool-cases (is_space c)) [
  | inl h ↦ simp (h, strip_start-strip_end s)
  | inr h ↦ simp (h, strip_end, strip_start-push_stripped c (strip_end s) h)
]

strip_end-push_stripped :
    (c : Char) (t : String) → strip_end (push_stripped c t) ≡ push_stripped c (strip_end t)
unfolding strip_end push_stripped
strip_end-push_stripped c String.[] = elim (Bool-cases (is_space c)) [
  | inl h ↦ simp (h, strip_end)
  | inr h ↦ simp (h, strip_end, push_stripped)
]
strip_end-push_stripped c (String.◌∷◌ d s) = refl

strip_end_twice : (s : String) → strip_end (strip_end s) ≡ strip_end s
unfolding strip_end
strip_end_twice String.[] = refl
strip_end_twice (String.◌∷◌ c s) =
    strip_end-push_stripped c (strip_end s) ∙ ap (push_stripped c) (strip_end_twice s)

strip_twice : (s : String) → strip (strip s) ≡ strip s
unfolding strip
strip_twice s = ap strip_end (strip_start-strip_end s) ∙ strip_end_twice (strip_start s)

-- A test of each pair of the two texts' characters.
abbrev all_pairs : (Char → Char → Bool) → String → String → Bool
all_pairs test (String.◌∷◌ o old) (String.◌∷◌ n new) = test o n && all_pairs test old new
all_pairs test _ _ = true

same : Bool → Bool → Bool
same true b = b
same false true = false
same false false = true

same-eq : (a b : Bool) → same a b ≡ true → a ≡ b
unfolding same
same-eq a b h = ground arith

code_eq : (c o : Char) → code c == code o ≡ true → c ≡ o
code_eq c o h = Char-path c o (ground arith)

is_space-translate :
    (old new : String) (c : Char)
    → all_pairs (λ o n. same (is_space o) (is_space n)) old new ≡ true
    → is_space (translate old new c) ≡ is_space c
unfolding translate
is_space-translate String.[] new c h = refl
is_space-translate (String.◌∷◌ o old) String.[] c h = refl
is_space-translate (String.◌∷◌ o old) (String.◌∷◌ n new) c h =
    elim (Bool-cases (code c == code o)) [
      | inl e ↦
          let found : is_space n ≡ is_space c =
            sym (ap is_space (code_eq c o e) ∙ same-eq (is_space o) (is_space n) (ground arith)) in
          simp (e, found)
      | inr e ↦ simp (e, is_space-translate old new c (ground arith))
    ]

is_space-lower_char : (c : Char) → is_space (lower_char c) ≡ is_space c
unfolding is_space same
is_space-lower_char c =
    is_space-translate "ABCDEFGHIJKLMNOPQRSTUVWXYZ" "abcdefghijklmnopqrstuvwxyz" c refl

translate_cases :
    (old new : String) (c : Char)
    → all_pairs (λ o n. code (lower_char n) == code n) old new ≡ true
    → (translate old new c ≡ c) ⊎ (lower_char (translate old new c) ≡ translate old new c)
unfolding translate
translate_cases String.[] new c h = inl refl
translate_cases (String.◌∷◌ o old) String.[] c h = inl refl
translate_cases (String.◌∷◌ o old) (String.◌∷◌ n new) c h = elim (Bool-cases (code c == code o)) [
  | inl e ↦ simp e (inr (code_eq (lower_char n) n (ground arith)))
  | inr e ↦ simp e (translate_cases old new c (ground arith))
]

lower_char_twice : (c : Char) → lower_char (lower_char c) ≡ lower_char c
unfolding translate
lower_char_twice c =
    elim (translate_cases "ABCDEFGHIJKLMNOPQRSTUVWXYZ" "abcdefghijklmnopqrstuvwxyz" c refl) [
      | inl e ↦ ap lower_char e
      | inr e ↦ e
    ]

lower_twice : (s : String) → lower (lower s) ≡ lower s
unfolding lower
lower_twice String.[] = refl
lower_twice (String.◌∷◌ c s) =
    ap (λ d. String.◌∷◌ d (lower (lower s))) (lower_char_twice c)
    ∙ ap (String.◌∷◌ (lower_char c)) (lower_twice s)

strip_start-lower : (s : String) → strip_start (lower s) ≡ lower (strip_start s)
unfolding strip_start lower
strip_start-lower String.[] = refl
strip_start-lower (String.◌∷◌ c s) = elim (Bool-cases (is_space c)) [
  | inl h ↦ simp (h, is_space-lower_char c, strip_start-lower s)
  | inr h ↦ simp (h, is_space-lower_char c, lower)
]

push_stripped-lower :
    (c : Char) (t : String) → push_stripped (lower_char c) (lower t) ≡ lower (push_stripped c t)
unfolding push_stripped lower
push_stripped-lower c String.[] = elim (Bool-cases (is_space c)) [
  | inl h ↦ simp (h, is_space-lower_char c, lower)
  | inr h ↦ simp (h, is_space-lower_char c, lower)
]
push_stripped-lower c (String.◌∷◌ d s) = refl

strip_end-lower : (s : String) → strip_end (lower s) ≡ lower (strip_end s)
unfolding strip_end lower
strip_end-lower String.[] = refl
strip_end-lower (String.◌∷◌ c s) =
    ap (push_stripped (lower_char c)) (strip_end-lower s) ∙ push_stripped-lower c (strip_end s)

strip-lower : (s : String) → strip (lower s) ≡ lower (strip s)
unfolding strip
strip-lower s = ap strip_end (strip_start-lower s) ∙ strip_end-lower (strip_start s)

pub normal_twice : (s : String) → lower (strip (lower (strip s))) ≡ lower (strip s)
normal_twice s =
    ap lower (strip-lower (strip s)) ∙ lower_twice (strip (strip s)) ∙ ap lower (strip_twice s)
