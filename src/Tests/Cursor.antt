-- ===== src/Tests/Cursor.antt =====
-- A cursor that is stored in a checkpoint and read again.
use fast_api_boilerplate.Base.{
  ◌≡◌, refl, false, Option, none, some, String, [], ◌∷◌, str_eq, if◌then◌else◌,
}
use fast_api_boilerplate.Base.Dict.{lookup}
use fast_api_boilerplate.Base.Payloads.{
  Payload, get, entry, int_value, str_value, dict_value, time_value,
}
use fast_api_boilerplate.Integration.Cursor.{
  SyncCursor, start_cursor, from_cursor_state, to_cursor_state, cursor_state_of, cursor_of,
  read_time, write_time,
}
use fast_api_boilerplate.Integration.Cursor.RoundTrip.{from_cursor_state-to_cursor_state}

data Day : Type 0 where
  monday tuesday : Day

abbrev isoformat : Day → String
isoformat monday = "2026-11-23"
isoformat tuesday = "2026-11-24"

abbrev fromisoformat : String → Option Day
fromisoformat text =
    if str_eq text "2026-11-23"
    then some monday
    else if str_eq text "2026-11-24"
    then some tuesday
    else none

reads : (day : Day) → fromisoformat (isoformat day) ≡ some day
reads monday = refl
reads tuesday = refl

writes : (day : Day) → str_eq (isoformat day) "" ≡ false
writes monday = refl
writes tuesday = refl

abbrev cursor : SyncCursor String Day
cursor = record {
  cursor_value = none;
  page_number = some (int_value 0);
  last_modified_at = some (time_value tuesday);
  high_water_mark = some (str_value "42");
  extra = some (dict_value []);
}

from_cursor_state-to_cursor_state_example :
    (state : Payload String Day) × (to_cursor_state isoformat cursor ≡ some state)
    × (from_cursor_state fromisoformat (some state) ≡ some cursor)
from_cursor_state-to_cursor_state_example =
    from_cursor_state-to_cursor_state isoformat fromisoformat reads writes cursor (some tuesday) []
      refl refl

-- The page number 0 is stored, and an empty `extra` is not.
stores :
    to_cursor_state isoformat cursor
    ≡ some (
        ("page_number", some (int_value 0))
        ∷ ("last_modified_at", some (str_value "2026-11-24"))
        ∷ ("high_water_mark", some (str_value "42"))
        ∷ [])
unfolding to_cursor_state cursor_state_of write_time entry
stores = refl

starts : from_cursor_state fromisoformat none ≡ some (start_cursor {J = String})
unfolding from_cursor_state
starts = refl

-- A text that is no time is an error.
rejects_text :
    from_cursor_state {J = String} fromisoformat
      (some (("last_modified_at", some (str_value "soon")) ∷ []))
    ≡ none
unfolding from_cursor_state cursor_of read_time get lookup
rejects_text = refl
