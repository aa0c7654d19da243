-- ===== src/Client/Events/Tests.antt =====
-- A run of a client that listens to the server.
use labfunctions.Prelude.{◌≡◌, refl, List, [], ◌∷◌, some, map, arith}
use labfunctions.Text.{Text, codes, has_char, is_space, teq}
use labfunctions.Stores.Chunks.{concat}
use labfunctions.Events.RoundTrip.{IsLine, present}
use labfunctions.Events.Stream.{Entry, event_of, listen_loop}
use labfunctions.Events.Stream.Listen.{batches}
use labfunctions.Events.Stream.Memory.{memory, entry}
use labfunctions.Client.Events.{events_listen}
use labfunctions.Client.Events.Heard.{
  AllLines, iter_lines, no_events, one_event, until_exit, events_listen-listen_loop,
}

abbrev first_two : List Entry
first_two = entry (codes "2") (codes "a: b") ∷ entry (codes "3") (codes "c") ∷ []

abbrev last_ones : List (List Entry)
last_ones = (entry (codes "4") (codes "exit") ∷ []) ∷ []

a-IsLine : IsLine (codes "a: b")
unfolding has_char is_space
a-IsLine = record { one = refl; left = refl; right = refl }

c-IsLine : IsLine (codes "c")
unfolding has_char is_space
c-IsLine = record { one = refl; left = refl; right = refl }

exit-IsLine : IsLine (codes "exit")
unfolding has_char is_space
exit-IsLine = record { one = refl; left = refl; right = refl }

control-IsLine : IsLine (codes "control")
unfolding has_char is_space
control-IsLine = record { one = refl; left = refl; right = refl }

ids-IsLine : IsLine (codes "2") × IsLine (codes "3") × IsLine (codes "4")
unfolding has_char is_space
ids-IsLine = (
  record { one = refl; left = refl; right = refl },
  record { one = refl; left = refl; right = refl },
  record { one = refl; left = refl; right = refl },
)

all-AllLines : AllLines (map event_of (batches memory first_two last_ones))
unfolding event_of teq has_char
all-AllLines =
    let (two, three, four) = ids-IsLine in
    one_event a-IsLine (present control-IsLine) (present two) refl (
      one_event c-IsLine (present control-IsLine) (present three) refl
        (one_event exit-IsLine (present control-IsLine) (present four) refl no_events))

events_listen-listen_loop_example :
    (sent : List Text) × (listen_loop memory 4
        (codes "1")
        (entry (codes "1") [] ∷ entry (codes "2") (codes "a: b") ∷ [])
        ((entry (codes "3") (codes "c") ∷ []) ∷ last_ones)
      ≡ some sent)
    × (events_listen (iter_lines (concat sent))
        ≡ until_exit (map event_of (batches memory first_two last_ones)))
unfolding teq
events_listen-listen_loop_example =
    events_listen-listen_loop memory 4 [] (entry (codes "2") (codes "a: b") ∷ [])
      (entry (codes "1") []) ((entry (codes "3") (codes "c") ∷ []) ∷ last_ones) (ground arith) refl
      all-AllLines
