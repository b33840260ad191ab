-- ===== src/Integration/Cursor.antt =====
-- src/app/integrations/contracts/sync.py: the cursor of a sync and the checkpoint it is stored in.
-- `T` is Python's `datetime`; `isoformat` and `fromisoformat` are arguments. A field holds whatever
-- value the checkpoint has, so `last_modified_at` may be no time: then `to_cursor_state` raises.
pub mod RoundTrip
use fast_api_boilerplate.Base.{
  ℕ, zero, suc, Bool, true, false, Option, none, some, String, [], ◌∷◌, str_eq, if◌then◌else◌,
}
use fast_api_boilerplate.Base.Dict.{Dict, lookup}
use fast_api_boilerplate.Base.Payloads.{
  Value, int_value, str_value, dict_value, time_value, Payload, get, entry,
}

pub record SyncCursor (J T : Type 0) : Type 0 where
  pub cursor_value : Option (Value J T)
  pub page_number : Option (Value J T)
  pub last_modified_at : Option (Value J T)
  pub high_water_mark : Option (Value J T)
  pub extra : Option (Value J T)

module _ {J T : Type 0} where
  -- `SyncCursor()`
  unfoldable pub start_cursor : SyncCursor J T
  start_cursor = record {
    cursor_value = none;
    page_number = none;
    last_modified_at = none;
    high_water_mark = none;
    extra = some (dict_value []);
  }

  -- `state.get("extra", {})`
  abbrev pub or_empty_dict : Option (Option (Value J T)) → Option (Value J T)
  or_empty_dict none = some (dict_value [])
  or_empty_dict (some value) = value

  -- The truth of a value: a `datetime` is always true.
  abbrev pub if_true : Option (Value J T) → Option (Value J T)
  if_true (some (int_value zero)) = none
  if_true (some (str_value text)) = if str_eq text "" then none else some (str_value text)
  if_true (some (dict_value [])) = none
  if_true value = value

  abbrev pub time_of : Option T → Option (Option (Value J T))
  time_of none = none
  time_of (some time) = some (some (time_value time))

  -- A text that is not empty is read as a time, and `none` is its `ValueError`.
  unfoldable pub read_time : (String → Option T) → Option (Value J T) → Option (Option (Value J T))
  read_time fromisoformat (some (str_value text)) =
      if str_eq text "" then some (some (str_value text)) else time_of (fromisoformat text)
  read_time fromisoformat value = some value

  unfoldable pub cursor_of : Option (Option (Value J T)) → Payload J T → Option (SyncCursor J T)
  cursor_of none state = none
  cursor_of (some last_modified_at) state = some (record {
    cursor_value = get "cursor_value" state;
    page_number = get "page_number" state;
    last_modified_at = last_modified_at;
    high_water_mark = get "high_water_mark" state;
    extra = or_empty_dict (lookup "extra" state);
  })

  unfoldable pub from_cursor_state :
      (String → Option T) → Option (Payload J T) → Option (SyncCursor J T)
  from_cursor_state fromisoformat none = some start_cursor
  from_cursor_state fromisoformat (some state) =
      cursor_of (read_time fromisoformat (get "last_modified_at" state)) state

  -- `none` is the `AttributeError` of a value that has no `isoformat`.
  unfoldable pub write_time : (T → String) → Option (Value J T) → Option (Option (Value J T))
  write_time isoformat none = some none
  write_time isoformat (some (time_value time)) = some (some (str_value (isoformat time)))
  write_time isoformat _ = none

  unfoldable pub cursor_state_of :
      SyncCursor J T → Option (Option (Value J T)) → Option (Payload J T)
  cursor_state_of cursor none = none
  cursor_state_of cursor (some last_modified_at) = some (
      entry "cursor_value" cursor.cursor_value (
        entry "page_number" cursor.page_number (
          entry "last_modified_at" last_modified_at (
            entry "high_water_mark" cursor.high_water_mark
              (entry "extra" (if_true cursor.extra) [])))))

  unfoldable pub to_cursor_state : (T → String) → SyncCursor J T → Option (Payload J T)
  to_cursor_state isoformat cursor =
      cursor_state_of cursor (write_time isoformat cursor.last_modified_at)
