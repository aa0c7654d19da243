-- ===== src/Events/RoundTrip.antt =====
-- `from_sse2event` reads back what `format_sse` writes.
use mathlib.Core.List.{reverse}
use labfunctions.Prelude.{
  ◌≡◌, refl, true, false, [], ◌∷◌, ◌++◌, Option, none, some, arith, append_assoc, ◌∙◌, ap,
}
use labfunctions.Text.{Text, codes, has_char, after_prefix, is_space}
use labfunctions.Text.Split.{split_all, split_once-append, split_all-append, has_char-append}
use labfunctions.Text.Strip.{starts_clear, strip_id, strip-cons}
use labfunctions.Events.{
  EventSse, Parsed, nothing, field_line, format_sse, value_of, parse_line, parse_lines,
  from_sse2event,
}

-- One line that white space neither begins nor ends.
pub record IsLine (s : Text) : Type 0 where
  pub one : has_char 10 s ≡ false
  pub left : starts_clear is_space s ≡ true
  pub right : starts_clear is_space (reverse s) ≡ true

pub data IsField : Option Text → Type 0 where
  absent : IsField none
  present : {v : Text} → IsLine v → IsField (some v)

module _ (name : Text) (clear : has_char b':' name ≡ false) where
  value_of-field : (v : Text) → IsLine v → value_of (name ++ b':' ∷ 32 ∷ v) ≡ v
  unfolding value_of
  value_of-field v line =
      rw (split_once-append b':' name (32 ∷ v) clear, value_of)
        (strip-cons is_space 32 v (unfold is_space in refl)
          ∙ strip_id is_space v line.left line.right)

  split_all-field :
      (v msg : Text)
      → has_char 10 name ≡ false
      → has_char 10 v ≡ false
      → split_all 10 (field_line name v msg) ≡ (name ++ b':' ∷ 32 ∷ v) ∷ split_all 10 msg
  unfolding has_char
  split_all-field v msg h k = rw (← append_assoc name (b':' ∷ 32 ∷ v) (10 ∷ msg)) (
      split_all-append 10 (name ++ b':' ∷ 32 ∷ v) msg
        (rw (has_char-append 10 name (b':' ∷ 32 ∷ v)) (ground arith)))

module _ (v : Text) (line : IsLine v) (p : Parsed) where
  parse_line-data : parse_line (codes "data" ++ b':' ∷ 32 ∷ v) p ≡ record p { text = some v }
  unfolding parse_line after_prefix has_char
  parse_line-data = rw (value_of-field (codes "data") refl v line)

  parse_line-event : parse_line (codes "event" ++ b':' ∷ 32 ∷ v) p ≡ record p { event = some v }
  unfolding parse_line after_prefix has_char
  parse_line-event = rw (value_of-field (codes "event") refl v line)

  parse_line-id : parse_line (codes "id" ++ b':' ∷ 32 ∷ v) p ≡ record p { id = some v }
  unfolding parse_line after_prefix has_char
  parse_line-id = rw (value_of-field (codes "id") refl v line)

-- What the two optional fields and the data add to what has been parsed.
parse_data :
    (d : Text) (p : Parsed)
    → IsLine d
    → parse_lines (split_all 10 (field_line (codes "data") d (10 ∷ []))) p
      ≡ record p { text = some d }
unfolding parse_lines parse_line split_all has_char after_prefix
parse_data d p line =
    rw (split_all-field (codes "data") refl d (10 ∷ []) refl line.one) (parse_line-data d line p)

module _ (v msg : Text) (line : IsLine v) (p : Parsed) where
  parse_event :
      parse_lines (split_all 10 (field_line (codes "event") v msg)) p
      ≡ parse_lines (split_all 10 msg) (record p { event = some v })
  unfolding parse_lines has_char
  parse_event =
      rw (split_all-field (codes "event") refl v msg refl line.one)
        (ap (parse_lines (split_all 10 msg)) (parse_line-event v line p))

  parse_id :
      parse_lines (split_all 10 (field_line (codes "id") v msg)) p
      ≡ parse_lines (split_all 10 msg) (record p { id = some v })
  unfolding parse_lines has_char
  parse_id =
      rw (split_all-field (codes "id") refl v msg refl line.one)
        (ap (parse_lines (split_all 10 msg)) (parse_line-id v line p))

abbrev event_of : Text → Option Text → Option Text → EventSse
event_of d e i = record { text = d; event = e; id = i }

parse_format :
    (d : Text) (e i : Option Text)
    → IsLine d
    → IsField e
    → IsField i
    → parse_lines (split_all 10 (format_sse (event_of d e i))) nothing
      ≡ record { text = some d; event = e; id = i }
unfolding format_sse
parse_format d e i line absent absent = parse_data d nothing line
parse_format d e i line (present {v} le) absent =
    parse_event v (field_line (codes "data") d (10 ∷ [])) le nothing
    ∙ parse_data d (record nothing { event = some v }) line
parse_format d e i line absent (present {v} li) =
    parse_id v (field_line (codes "data") d (10 ∷ [])) li nothing
    ∙ parse_data d (record nothing { id = some v }) line
parse_format d e i line (present {v} le) (present {v = w} li) =
    parse_id w (field_line (codes "event") v (field_line (codes "data") d (10 ∷ []))) li nothing
    ∙ parse_event v (field_line (codes "data") d (10 ∷ [])) le (record nothing { id = some w })
    ∙ parse_data d (record { text = none; event = some v; id = some w }) line

-- An event whose fields are single lines without white space at their ends is read back as it was,
-- with or without an event type and an id.
pub from_sse2event-format_sse :
    (evt : EventSse)
    → IsLine evt.text
    → IsField evt.event
    → IsField evt.id
    → from_sse2event (format_sse evt) ≡ some evt
unfolding from_sse2event
from_sse2event-format_sse evt line fe fi = rw (parse_format evt.text evt.event evt.id line fe fi)
