-- ===== src/Client/Events.antt =====
-- `events_listen` of labfunctions/client/base.py: the events that the client reads from the stream of
-- the server. `lines` is what the HTTP client's `iter_lines` gives, each line with its end.
-- `iter_lines` ends a line at `\n`, `\r` and `\r\n`, and gives each of these as `\n`.
pub mod Heard
mod Tests
use labfunctions.Prelude.{
  ◌||◌, Bool, true, false, List, [], ◌∷◌, ◌++◌, Option, none, some, if◌then◌else◌,
}
use labfunctions.Text.{Text, codes, teq}
use labfunctions.Events.{EventSse, from_sse2event}

-- How the generator ends: by `return`, with the stream, or by the error of an event without data.
pub data Ended : Type 0 where
  returned exhausted raised : Ended

-- `buffer_.endswith("\n\n")`
unfoldable pub ends_blank : Text → Bool
ends_blank [] = false
ends_blank (c ∷ s) = teq (c ∷ s) (10 ∷ 10 ∷ []) || ends_blank s

abbrev pub yielding : EventSse → List EventSse × Ended → List EventSse × Ended
yielding evt (evts, ended) = (evt ∷ evts, ended)

-- What is done with an event that is complete.
abbrev pub handled : Option EventSse → List EventSse × Ended → List EventSse × Ended
handled none rest = ([], raised)
handled (some evt) rest = if teq evt.text (codes "exit") then ([], returned) else yielding evt rest

unfoldable pub listen_lines : List Text → Text → List EventSse × Ended
listen_lines [] buffer_ = ([], exhausted)
listen_lines (line ∷ lines) buffer_ =
    let fresh = listen_lines lines [] in
    let more = listen_lines lines (buffer_ ++ line) in
    if ends_blank (buffer_ ++ line) then handled (from_sse2event (buffer_ ++ line)) fresh else more

unfoldable pub events_listen : List Text → List EventSse × Ended
unfolding listen_lines
events_listen lines = listen_lines lines []
