-- ===== src/EventPipeline/Cursor.antt =====
-- event_pipeline.py: the cursors of the event processors.
use game_gardens_of_karaxas.Base.{
  ℕ, String, Option, none, some, List, [], ◌∷◌, ◌++◌, leb, ◌==◌, nat_equality, string_equality,
  pair_equality, option_equality, if◌then◌else◌, first_where, update_where, ◌≡◌, false,
  string_eq_iff, arith, max, first_where-update, Option-cases, inl, inr, first_where_sound, refl,
  ◌∙◌,
}
use game_gardens_of_karaxas.Base.Text.{strip, is_empty}

pub record WorldProcessorCursor : Type 0 where
  pub processor_name : String
  pub last_event_id : ℕ
  pub last_event_at : Option ℕ
  pub metadata_json : String

abbrev pub cursor_of : String → List WorldProcessorCursor → Option WorldProcessorCursor
cursor_of name = first_where (λ (c : WorldProcessorCursor). c.processor_name == name)

abbrev pub new_cursor : String → WorldProcessorCursor
new_cursor name = record {
  processor_name = name;
  last_event_id = 0;
  last_event_at = none;
  metadata_json = "{}";
}

-- `None` is the `ValueError` of an empty name.
unfoldable pub get_or_create_processor_cursor :
    String → List WorldProcessorCursor → Option WorldProcessorCursor × List WorldProcessorCursor
get_or_create_processor_cursor processor_name cs =
    let name = strip processor_name in
    let found : Option WorldProcessorCursor × List WorldProcessorCursor = elim (cursor_of name cs) [
      | some row ↦ (some row, cs)
      | none ↦ (some (new_cursor name), cs ++ new_cursor name ∷ [])
    ] in
    if is_empty name then (none, cs) else found

-- `metadata_json or row.metadata_json`: the empty object is falsy too
abbrev pub metadata_or : Option String → String → String
metadata_or none old = old
metadata_or (some m) old = if m == "{}" then old else m

-- the assignments of `advance_processor_cursor`, with its test
unfoldable pub advance : ℕ → Option ℕ → Option String → WorldProcessorCursor → WorldProcessorCursor
advance last_event_id last_event_at metadata row =
    if leb row.last_event_id last_event_id
    then record row {
      last_event_id = last_event_id;
      last_event_at = last_event_at;
      metadata_json = metadata_or metadata row.metadata_json;
    }
    else row

-- the write of `advance_processor_cursor` to the row that it has got
unfoldable pub write_cursor :
    (WorldProcessorCursor → WorldProcessorCursor)
    → Option WorldProcessorCursor × List WorldProcessorCursor
    → Option WorldProcessorCursor × List WorldProcessorCursor
write_cursor step (none, cs) = (none, cs)
write_cursor step (some row, cs) = (
  some (step row),
  update_where (λ (c : WorldProcessorCursor). c.processor_name == row.processor_name) step cs,
)

unfoldable pub advance_processor_cursor :
    String
    → ℕ
    → Option ℕ
    → Option String
    → List WorldProcessorCursor
    → Option WorldProcessorCursor × List WorldProcessorCursor
advance_processor_cursor processor_name last_event_id last_event_at metadata cs =
    write_cursor (advance last_event_id last_event_at metadata)
      (get_or_create_processor_cursor processor_name cs)

cursor-append :
    (name : String) (cs : List WorldProcessorCursor)
    → cursor_of name cs ≡ none
    → cursor_of name (cs ++ new_cursor name ∷ []) ≡ some (new_cursor name)
cursor-append name [] h = rw ((string_eq_iff name name).1 refl)
cursor-append name (c ∷ cs) h = ground (arith, cursor-append name cs)

-- the position of a processor, 0 where it has no cursor yet
abbrev pub position : String → List WorldProcessorCursor → ℕ
position name cs = elim (cursor_of name cs) [ none ↦ 0 | some c ↦ c.last_event_id ]

advance_keeps_name :
    (n : ℕ) (at : Option ℕ) (m : Option String) (name : String) (c : WorldProcessorCursor)
    → ((advance n at m c).processor_name == name) ≡ (c.processor_name == name)
unfolding advance
advance_keeps_name n at m name c = ground arith

position_of_found :
    (name : String) (cs : List WorldProcessorCursor) {row : WorldProcessorCursor}
    → cursor_of name cs ≡ some row
    → position name cs ≡ row.last_event_id
position_of_found name cs h = rw (h, position)

advance_found :
    (name : String) (n : ℕ) (at : Option ℕ) (m : Option String) (cs : List WorldProcessorCursor)
    (row : WorldProcessorCursor)
    → cursor_of name cs ≡ some row
    → position name (write_cursor (advance n at m) (some row, cs)).1 ≡ max row.last_event_id n
unfolding write_cursor
advance_found name n at m cs row h =
    let named : row.processor_name ≡ name =
      (string_eq_iff row.processor_name name).0
        (first_where_sound (λ (c : WorldProcessorCursor). c.processor_name == name) cs row h) in
    let cs' =
      update_where (λ (c : WorldProcessorCursor). c.processor_name == name) (advance n at m) cs in
    let found' : cursor_of name cs' ≡ some (advance n at m row) =
      first_where-update (λ c. c.processor_name == name) (advance n at m) cs row
        (advance_keeps_name n at m name) h in
    rw named (position_of_found name cs' found' ∙ unfold advance in ground arith)

-- An advance moves the cursor of its processor to the larger of its position and the event, so a late
-- or repeated event never moves it back.
pub advance_is_max :
    (name : String) (n : ℕ) (at : Option ℕ) (m : Option String) (cs : List WorldProcessorCursor)
    → is_empty (strip name) ≡ false
    → position (strip name) (advance_processor_cursor name n at m cs).1
      ≡ max (position (strip name) cs) n
unfolding advance_processor_cursor get_or_create_processor_cursor
advance_is_max name n at m cs h = elim (Option-cases (cursor_of (strip name) cs)) [
  | inl fresh ↦
      let key = strip name in
      let cs' = cs ++ new_cursor key ∷ [] in
      let got : get_or_create_processor_cursor name cs ≡ (some (new_cursor key), cs') =
        rw h (rw fresh) in
      let start : position key cs ≡ 0 = rw (fresh, position) in
      rw (got, start) (advance_found key n at m cs' (new_cursor key) (cursor-append key cs fresh))
  | inr (row, found) ↦
      let key = strip name in
      let got : get_or_create_processor_cursor name cs ≡ (some row, cs) = rw h (rw found) in
      rw (got, position_of_found key cs found) (advance_found key n at m cs row found)
]
