-- ===== src/Webhooks/Events/Media.antt =====
-- src/app/webhooks/ingestion.py: the media type and the charset of a content type, on ASCII texts.
use Prim.Native.Char.{Char, code}
use fast_api_boilerplate.Base.{
  ℕ, Bool, Option, none, some, String, List, [], ◌∷◌, ◌==◌, ◌||◌, str_eq, if◌then◌else◌,
}
use fast_api_boilerplate.Base.Strings.{strip, lower}

push_head : Char → List String → List String
push_head c [] = String.◌∷◌ c "" ∷ []
push_head c (part ∷ parts) = String.◌∷◌ c part ∷ parts

-- `text.split(sign)` for one character
unfoldable pub split_at : ℕ → String → List String
unfolding push_head
split_at sign String.[] = "" ∷ []
split_at sign (String.◌∷◌ c text) =
    let parts = split_at sign text in if code c == sign then "" ∷ parts else push_head c parts

abbrev first_part : List String → String
first_part [] = ""
first_part (part ∷ parts) = part

abbrev later_parts : List String → List String
later_parts [] = []
later_parts (part ∷ parts) = parts

-- What stands after the first `sign`: the third part of `text.partition(sign)`.
after_sign : ℕ → String → String
after_sign sign String.[] = ""
after_sign sign (String.◌∷◌ c text) = if code c == sign then text else after_sign sign text

is_quote : Char → Bool
is_quote c = code c == 34 || code c == 39

drop_quotes : String → String
unfolding is_quote
drop_quotes String.[] = ""
drop_quotes (String.◌∷◌ c text) = if is_quote c then drop_quotes text else String.◌∷◌ c text

push_unquoted : Char → String → String
unfolding is_quote
push_unquoted c String.[] = if is_quote c then "" else String.◌∷◌ c ""
push_unquoted c (String.◌∷◌ d text) = String.◌∷◌ c (String.◌∷◌ d text)

drop_end_quotes : String → String
unfolding push_unquoted
drop_end_quotes String.[] = ""
drop_end_quotes (String.◌∷◌ c text) = push_unquoted c (drop_end_quotes text)

abbrev some_text : String → Option String
some_text text = if str_eq text "" then none else some text

charset_of : List String → Option String
unfolding split_at after_sign drop_quotes drop_end_quotes
charset_of [] = none
charset_of (component ∷ components) =
    let rest = charset_of components in
    if str_eq (lower (strip (first_part (split_at 61 component)))) "charset"
    then some_text (drop_end_quotes (drop_quotes (strip (after_sign 61 component))))
    else rest

unfoldable pub charset : Option String → Option String
unfolding charset_of split_at
charset none = none
charset (some content_type) = charset_of (later_parts (split_at 59 content_type))

unfoldable pub media_type : Option String → Option String
unfolding split_at
media_type none = none
media_type (some content_type) = some_text (lower (strip (first_part (split_at 59 content_type))))
