-- ===== src/Events/Tests.antt =====
-- A run of the text form of an event.
use labfunctions.Prelude.{◌≡◌, refl, [], ◌∷◌, none, some, arith}
use labfunctions.Text.{codes, has_char, is_space, teq}
use labfunctions.Events.{EventSse, format_sse, from_sse2event}
use labfunctions.Events.RoundTrip.{IsLine, absent, present, from_sse2event-format_sse}
use labfunctions.Events.Stream.{listen_loop}
use labfunctions.Events.Stream.Memory.{memory, entry}
use labfunctions.Events.Stream.Listen.{messages, batches, listen_loop_lem}

abbrev done : EventSse
done = record { text = codes "all done: 3"; event = some (codes "result"); id = none }

done-IsLine : IsLine (codes "all done: 3")
unfolding has_char is_space
done-IsLine = record { one = refl; left = refl; right = refl }

result-IsLine : IsLine (codes "result")
unfolding has_char is_space
result-IsLine = record { one = refl; left = refl; right = refl }

from_sse2event-format_sse_example : from_sse2event (format_sse done) ≡ some done
from_sse2event-format_sse_example =
    from_sse2event-format_sse done done-IsLine (present result-IsLine) absent

listen_loop_lem_example :
    listen_loop memory 4
      (codes "1")
      (entry (codes "1") [] ∷ entry (codes "2") [] ∷ [])
      ((entry (codes "3") [] ∷ []) ∷ (entry (codes "4") (codes "exit") ∷ []) ∷ [])
    ≡ some (
        messages memory (
          batches memory
            (entry (codes "2") [] ∷ entry (codes "3") [] ∷ [])
            ((entry (codes "4") (codes "exit") ∷ []) ∷ [])))
unfolding teq
listen_loop_lem_example =
    listen_loop_lem memory 4 [] (entry (codes "2") [] ∷ []) (entry (codes "1") [])
      ((entry (codes "3") [] ∷ []) ∷ (entry (codes "4") (codes "exit") ∷ []) ∷ []) (ground arith)
      refl
