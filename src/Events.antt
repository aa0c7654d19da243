-- ===== src/Events.antt =====
-- labfunctions/events.py, class `EventManager`: the text form of server-sent events, its parser,
-- and the name of a channel.
mod Tests
pub mod RoundTrip
pub mod Stream
use labfunctions.Prelude.{
  ℕ, Bool, true, false, List, [], ◌∷◌, ◌++◌, Option, none, some, if◌then◌else◌,
}
use labfunctions.Text.{Text, codes, after_prefix, is_space}
use labfunctions.Text.Split.{split_once, split_all}
use labfunctions.Text.Strip.{strip}
use labfunctions.Dict.{found}
use labfunctions.Utils.Filename.{secure_filename}

-- `EventSSE` of labfunctions/types/events.py.
pub record EventSse : Type 0 where
  pub text : Text
  pub event : Option Text
  pub id : Option Text

unfoldable pub generate_channel : (Text → Text) → Text → Text → Text
generate_channel nfkd projectid execid =
    secure_filename nfkd projectid ++ b'.' ∷ secure_filename nfkd execid

-- f"{name}: {value}\n" in front of the message, if there is a value.
abbrev pub field_line : Text → Text → Text → Text
field_line name value msg = name ++ b':' ∷ 32 ∷ (value ++ 10 ∷ msg)

abbrev optional_line : Text → Option Text → Text → Text
optional_line name none msg = msg
optional_line name (some v) msg = field_line name v msg

unfoldable pub format_sse : EventSse → Text
format_sse evt =
    optional_line (codes "id") evt.id
      (optional_line (codes "event") evt.event (field_line (codes "data") evt.text (10 ∷ [])))

abbrev pub starts_with : Text → Text → Bool
starts_with p s = found (after_prefix p s)

-- `line.split(":", maxsplit=1)[1].strip()`; there is a colon wherever this is called.
pub value_of : Text → Text
value_of line = elim (split_once b':' line) [ none ↦ [] | some (_, v) ↦ strip is_space v ]

-- The three variables of the loop.
pub record Parsed : Type 0 where
  pub text : Option Text
  pub event : Option Text
  pub id : Option Text

pub parse_line : Text → Parsed → Parsed
parse_line line p =
    if starts_with (codes "data:") line
    then record p { text = some (value_of line) }
    else if starts_with (codes "event:") line
    then record p { event = some (value_of line) }
    else if starts_with (codes "id:") line
    then record p { id = some (value_of line) }
    else p

pub parse_lines : List Text → Parsed → Parsed
parse_lines [] p = p
parse_lines (line ∷ lines) p = parse_lines lines (parse_line line p)

abbrev pub nothing : Parsed
nothing = record { text = none; event = none; id = none }

-- `EventSSE(id=id, event=event, data=data)`: the data must be a text, or pydantic raises.
abbrev pub to_event : Parsed → Option EventSse
to_event p = elim p.text [
  | none ↦ none
  | some d ↦ some (record { text = d; event = p.event; id = p.id })
]

unfoldable pub from_sse2event : Text → Option EventSse
from_sse2event msg = to_event (parse_lines (split_all 10 msg) nothing)
