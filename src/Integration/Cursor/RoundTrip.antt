-- ===== src/Integration/Cursor/RoundTrip.antt =====
-- A checkpoint gives back the cursor it was made of.
use fast_api_boilerplate.Base.{
  ◌≡◌, refl, sym, ap, ◌∙◌, false, Option, none, some, String, [], ◌∷◌, str_eq,
}
use fast_api_boilerplate.Base.Dict.{Dict, lookup}
use fast_api_boilerplate.Base.Payloads.{
  Value, dict_value, str_value, time_value, Payload, get, entry, written, lookup-entry_other,
}
use fast_api_boilerplate.Integration.Cursor.{
  SyncCursor, from_cursor_state, to_cursor_state, cursor_state_of, cursor_of, read_time, write_time,
  or_empty_dict, if_true,
}

module _ {J T : Type 0} where
  -- The fields that the annotations of the class allow, where they are read as times and dicts.
  abbrev time_field : Option T → Option (Value J T)
  time_field none = none
  time_field (some time) = some (time_value time)

  entries : (a b c d e : Option (Value J T)) → Payload J T
  entries a b c d e = entry "cursor_value" a (
      entry "page_number" b
        (entry "last_modified_at" c (entry "high_water_mark" d (entry "extra" e []))))

  module _ (a b c d e : Option (Value J T)) where
    get_cursor_value : get "cursor_value" (entries a b c d e) ≡ a
    unfolding entries
    get_cursor_value = simp written

    get_page_number : get "page_number" (entries a b c d e) ≡ b
    unfolding entries
    get_page_number = simp written

    get_last_modified_at : get "last_modified_at" (entries a b c d e) ≡ c
    unfolding entries
    get_last_modified_at = simp written

    get_high_water_mark : get "high_water_mark" (entries a b c d e) ≡ d
    unfolding entries
    get_high_water_mark = simp written

    lookup_extra : lookup "extra" (entries a b c d e) ≡ lookup "extra" (entry "extra" e [])
    unfolding entries
    lookup_extra =
        lookup-entry_other "extra" "cursor_value" a _ refl
        ∙ lookup-entry_other "extra" "page_number" b _ refl
        ∙ lookup-entry_other "extra" "last_modified_at" c _ refl
        ∙ lookup-entry_other "extra" "high_water_mark" d _ refl

  or_empty_dict-if_true :
      (extra : Dict J)
      → or_empty_dict {J = J} {T = T}
          (lookup "extra" (entry "extra" (if_true (some (dict_value extra))) []))
        ≡ some (dict_value extra)
  unfolding lookup entry
  or_empty_dict-if_true [] = refl
  or_empty_dict-if_true (item ∷ items) = refl

  extra_back :
      (value : Option (Value J T)) (extra : Dict J)
      → value ≡ some (dict_value extra)
      → or_empty_dict (lookup "extra" (entry "extra" (if_true value) [])) ≡ value
  extra_back value extra h =
      ap (λ v. or_empty_dict (lookup "extra" (entry "extra" (if_true v) []))) h
      ∙ or_empty_dict-if_true extra
      ∙ sym h

  module _ (isoformat : T → String) (fromisoformat : String → Option T)
      (reads : (time : T) → fromisoformat (isoformat time) ≡ some time)
      (writes : (time : T) → str_eq (isoformat time) "" ≡ false) where
    time_back :
        (time : Option T)
        → (written : Option (Value J T)) × (write_time isoformat (time_field time) ≡ some written)
          × (read_time fromisoformat written ≡ some (time_field time))
    unfolding write_time read_time
    time_back none = (none, refl, refl)
    time_back (some time) = (some (str_value (isoformat time)), refl, simp (writes, reads))

    -- If `fromisoformat` reads what `isoformat` writes, and `isoformat` never writes the empty text,
    -- a cursor whose time is a time or `None` and whose `extra` is a dict has a checkpoint, and
    -- `from_cursor_state` gives the cursor back from it.
    pub from_cursor_state-to_cursor_state :
        (cursor : SyncCursor J T) (time : Option T) (extra : Dict J)
        → cursor.last_modified_at ≡ time_field time
        → cursor.extra ≡ some (dict_value extra)
        → (state : Payload J T) × (to_cursor_state isoformat cursor ≡ some state)
          × (from_cursor_state fromisoformat (some state) ≡ some cursor)
    unfolding to_cursor_state from_cursor_state cursor_state_of cursor_of entries
    from_cursor_state-to_cursor_state cursor time extra is_time is_dict =
        let (last, to_text, to_time) = time_back time in
        let a = cursor.cursor_value in
        let b = cursor.page_number in
        let d = cursor.high_water_mark in
        let e = if_true cursor.extra in
        let state = entries a b last d e in
        (
          state,
          ap (cursor_state_of cursor) (ap (write_time isoformat) is_time ∙ to_text),
          ap (λ value. cursor_of (read_time fromisoformat value) state)
                (get_last_modified_at a b last d e)
              ∙ ap (λ value. cursor_of value state) (to_time ∙ ap some (sym is_time))
              ∙ λ i. some (record {
                cursor_value = get_cursor_value a b last d e i;
                page_number = get_page_number a b last d e i;
                last_modified_at = cursor.last_modified_at;
                high_water_mark = get_high_water_mark a b last d e i;
                extra =
                    (ap or_empty_dict (lookup_extra a b last d e)
                        ∙ extra_back cursor.extra extra is_dict)
                      i;
              }),
        )
