-- ===== src/Base/Strings.antt =====
-- What the program uses of Python's texts: `strip`, `lower` and `split` on texts of ASCII characters.
pub mod Normal
use Prim.Native.Char.{Char, code}
use Prim.Native.String.{String}
use mathlib.Core.Bool.{Bool, true, false, ◌&&◌, ◌||◌}
use mathlib.Core.List.{List, [], ◌∷◌}
use fast_api_boilerplate.Base.Tests.{leb, ◌==◌, if◌then◌else◌}

-- Tabs, line ends and the four separators 28..31, and the blank.
unfoldable pub is_space : Char → Bool
is_space c = (leb 9 (code c) && leb (code c) 13) || (leb 28 (code c) && leb (code c) 32)

-- The character of `new` at the place where `old` has `c`.
unfoldable pub translate : String → String → Char → Char
translate (String.◌∷◌ o old) (String.◌∷◌ n new) c =
    if code c == code o then n else translate old new c
translate _ _ c = c

abbrev pub lower_char : Char → Char
lower_char = translate "ABCDEFGHIJKLMNOPQRSTUVWXYZ" "abcdefghijklmnopqrstuvwxyz"

unfoldable pub lower : String → String
lower String.[] = ""
lower (String.◌∷◌ c s) = String.◌∷◌ (lower_char c) (lower s)

unfoldable pub strip_start : String → String
strip_start String.[] = ""
strip_start (String.◌∷◌ c s) = if is_space c then strip_start s else String.◌∷◌ c s

-- `c` goes before a text whose end is stripped.
unfoldable pub push_stripped : Char → String → String
push_stripped c String.[] = if is_space c then "" else String.◌∷◌ c ""
push_stripped c (String.◌∷◌ d s) = String.◌∷◌ c (String.◌∷◌ d s)

unfoldable pub strip_end : String → String
strip_end String.[] = ""
strip_end (String.◌∷◌ c s) = push_stripped c (strip_end s)

unfoldable pub strip : String → String
strip s = strip_end (strip_start s)

-- The words of `c` before a text with the words `words`; `joined` says that the text starts a word.
unfoldable pub push_word : Char → Bool → List String → List String
push_word c true (w ∷ words) = String.◌∷◌ c w ∷ words
push_word c _ words = String.◌∷◌ c "" ∷ words

unfoldable pub starts_word : String → Bool
starts_word String.[] = false
starts_word (String.◌∷◌ c s) = if is_space c then false else true

-- `s.split()`
unfoldable pub split : String → List String
split String.[] = []
split (String.◌∷◌ c s) = if is_space c then split s else push_word c (starts_word s) (split s)
