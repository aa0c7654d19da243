-- ===== src/Client/Events/Heard.antt =====
-- The client hears what the server sends.
use labfunctions.Prelude.{
  ℕ, ◌≡◌, refl, sym, ap, ◌∙◌, ◌==◌, ◌||◌, Bool, true, false, List, [], ◌∷◌, ◌++◌, append_assoc,
  append-nil, Option, none, some, map, arith, if◌then◌else◌, ◌<◌, ◌+◌,
}
use labfunctions.Text.{Text, codes, teq, has_char, length}
use labfunctions.Text.Newlines.{universal, universal-clear}
use labfunctions.Text.Split.{has_char-append}
use labfunctions.Stores.Chunks.{file_lines, concat}
use labfunctions.Events.{EventSse, format_sse, from_sse2event, field_line}
use labfunctions.Events.RoundTrip.{IsLine, IsField, absent, present, from_sse2event-format_sse}
use labfunctions.Events.Stream.{Entry, Streams, event_of, arrived, to_come, listen_loop}
use labfunctions.Events.Stream.Listen.{is_distinct, all_entries, batches, messages, listen_loop_lem}
use labfunctions.Client.Events.{
  Ended, returned, exhausted, ends_blank, yielding, handled, listen_lines, events_listen,
}

-- A line that is not empty does not end a message, whatever stands before it.
ends_blank-line :
    (b w : Text) (c : ℕ) → has_char 10 (c ∷ w) ≡ false → ends_blank (b ++ c ∷ w ++ 10 ∷ []) ≡ false
unfolding ends_blank teq has_char
ends_blank-line [] [] c h = ground arith
ends_blank-line [] (d ∷ w) c h = ground (arith, ends_blank-line [] w d)
ends_blank-line (e ∷ []) [] c h = ground (arith, ends_blank-line [] [] c)
ends_blank-line (e ∷ []) (d ∷ w) c h = ground (arith, ends_blank-line [] (d ∷ w) c)
ends_blank-line (e ∷ f ∷ []) w c h = ground (arith, ends_blank-line (f ∷ []) w c)
ends_blank-line (e ∷ f ∷ g ∷ b) w c h = ground (arith, ends_blank-line (f ∷ g ∷ b) w c)

ends_blank-blank : (b : Text) → ends_blank (b ++ 10 ∷ 10 ∷ []) ≡ true
unfolding ends_blank teq
ends_blank-blank [] = refl
ends_blank-blank (c ∷ b) = ground (arith, ends_blank-blank b)

file_lines-append :
    (a b : Text) → has_char 10 a ≡ false → file_lines (a ++ 10 ∷ b) ≡ (a ++ 10 ∷ []) ∷ file_lines b
unfolding file_lines has_char
file_lines-append [] b h = refl
file_lines-append (c ∷ a) b h =
    let other : (c == 10) ≡ false = ground arith in rw (other, file_lines-append a b (ground arith))

quiet :
    (line b : Text) (lines : List Text)
    → ends_blank (b ++ line) ≡ false
    → listen_lines (line ∷ lines) b ≡ listen_lines lines (b ++ line)
unfolding listen_lines
quiet line b lines h =
    ap
      (λ t.
        if t
        then handled (from_sse2event (b ++ line)) (listen_lines lines [])
        else listen_lines lines (b ++ line))
      h

heard :
    (line b : Text) (lines : List Text)
    → ends_blank (b ++ line) ≡ true
    → listen_lines (line ∷ lines) b ≡ handled (from_sse2event (b ++ line)) (listen_lines lines [])
unfolding listen_lines
heard line b lines h =
    ap
      (λ t.
        if t
        then handled (from_sse2event (b ++ line)) (listen_lines lines [])
        else listen_lines lines (b ++ line))
      h

-- A line that is not empty is added to the buffer.
listen_lines-line :
    (b w rest : Text) (c : ℕ)
    → has_char 10 (c ∷ w) ≡ false
    → listen_lines (file_lines (c ∷ w ++ 10 ∷ rest)) b
      ≡ listen_lines (file_lines rest) (b ++ (c ∷ w ++ 10 ∷ []))
listen_lines-line b w rest c h =
    ap (λ ls. listen_lines ls b) (file_lines-append (c ∷ w) rest h)
    ∙ quiet (c ∷ w ++ 10 ∷ []) b (file_lines rest)
        (ap ends_blank (sym (append_assoc b (c ∷ w) (10 ∷ []))) ∙ ends_blank-line b w c h)

-- A field of an event, without what stands behind it.
abbrev part : Text → Option Text → Text
part name none = []
part name (some v) = name ++ b':' ∷ 32 ∷ (v ++ 10 ∷ [])

part-field_line : (name v msg : Text) → field_line name v msg ≡ part name (some v) ++ msg
part-field_line name v msg =
    ap (λ t. name ++ b':' ∷ 32 ∷ t) (sym (append_assoc v (10 ∷ []) msg))
    ∙ sym (append_assoc name (b':' ∷ 32 ∷ (v ++ 10 ∷ [])) msg)

abbrev last_part : Text → Text
last_part d = part (codes "data") (some d) ++ 10 ∷ []

-- What the fields of an event look like, one behind the other.
format_sse-parts :
    (d : Text) (e i : Option Text)
    → format_sse (record { text = d; event = e; id = i })
      ≡ part (codes "id") i ++ (part (codes "event") e ++ last_part d)
unfolding format_sse
format_sse-parts d none none = part-field_line (codes "data") d (10 ∷ [])
format_sse-parts d (some e) none =
    part-field_line (codes "event") e _
    ∙ ap (λ t. part (codes "event") (some e) ++ t) (part-field_line (codes "data") d (10 ∷ []))
format_sse-parts d none (some i) =
    part-field_line (codes "id") i _
    ∙ ap (λ t. part (codes "id") (some i) ++ t) (part-field_line (codes "data") d (10 ∷ []))
format_sse-parts d (some e) (some i) =
    part-field_line (codes "id") i _
    ∙ ap (λ t. part (codes "id") (some i) ++ t)
        (part-field_line (codes "event") e _
          ∙ ap (λ t. part (codes "event") (some e) ++ t)
              (part-field_line (codes "data") d (10 ∷ [])))

-- A field that is there is one line.
module _ (c : ℕ) (name : Text) (clear : has_char 10 (c ∷ name) ≡ false) where
  part_line :
      (v rest : Text) → part (c ∷ name) (some v) ++ rest ≡ c ∷ (name ++ b':' ∷ 32 ∷ v) ++ 10 ∷ rest
  part_line v rest =
      ap (λ t. t ++ rest) (sym (append_assoc (c ∷ name) (b':' ∷ 32 ∷ v) (10 ∷ [])))
      ∙ append_assoc (c ∷ name ++ b':' ∷ 32 ∷ v) (10 ∷ []) rest

  part_clear :
      (v : Text) → has_char 10 v ≡ false → has_char 10 (c ∷ (name ++ b':' ∷ 32 ∷ v)) ≡ false
  unfolding has_char
  part_clear v h = ground (arith, has_char-append 10 name (b':' ∷ 32 ∷ v))

  listen_lines-part :
      (o : Option Text) (b rest : Text)
      → IsField o
      → listen_lines (file_lines (part (c ∷ name) o ++ rest)) b
        ≡ listen_lines (file_lines rest) (b ++ part (c ∷ name) o)
  listen_lines-part none b rest absent = ap (listen_lines (file_lines rest)) (sym (append-nil b))
  listen_lines-part (some v) b rest (present line) =
      ap (λ t. listen_lines (file_lines t) b) (part_line v rest)
      ∙ listen_lines-line b (name ++ b':' ∷ 32 ∷ v) rest c (part_clear v line.one)
      ∙ ap (λ t. listen_lines (file_lines rest) (b ++ t))
          (append_assoc (c ∷ name) (b':' ∷ 32 ∷ v) (10 ∷ []))

-- The end of an event, behind its fields.
listen_lines-blank :
    (b d rest : Text)
    → listen_lines (file_lines (10 ∷ rest)) (b ++ part (codes "data") (some d))
      ≡ handled
          (from_sse2event ((b ++ part (codes "data") (some d)) ++ 10 ∷ []))
          (listen_lines (file_lines rest) [])
unfolding has_char
listen_lines-blank b d rest =
    ap (λ ls. listen_lines ls (b ++ part (codes "data") (some d))) (file_lines-append [] rest refl)
    ∙ heard (10 ∷ []) (b ++ part (codes "data") (some d)) (file_lines rest) (
        ap ends_blank (
          ap (λ t. t ++ 10 ∷ []) (sym (append_assoc b (codes "data" ++ b':' ∷ 32 ∷ d) (10 ∷ [])))
          ∙ append_assoc (b ++ (codes "data" ++ b':' ∷ 32 ∷ d)) (10 ∷ []) (10 ∷ []))
        ∙ ends_blank-blank (b ++ (codes "data" ++ b':' ∷ 32 ∷ d)))

listen_lines-event :
    (evt : EventSse) (rest : Text)
    → IsLine evt.text
    → IsField evt.event
    → IsField evt.id
    → listen_lines (file_lines (format_sse evt ++ rest)) []
      ≡ handled (some evt) (listen_lines (file_lines rest) [])
unfolding has_char
listen_lines-event evt rest line fe fi =
    let i = part (codes "id") evt.id in
    let e = part (codes "event") evt.event in
    let d = part (codes "data") (some evt.text) in
    let whole : format_sse evt ≡ i ++ (e ++ (d ++ 10 ∷ [])) =
      format_sse-parts evt.text evt.event evt.id in
    let apart : format_sse evt ++ rest ≡ i ++ (e ++ (d ++ 10 ∷ rest)) =
      ap (λ t. t ++ rest) whole
      ∙ append_assoc i (e ++ (d ++ 10 ∷ [])) rest
      ∙ ap (λ t. i ++ t)
          (append_assoc e (d ++ 10 ∷ []) rest ∙ ap (λ t. e ++ t) (append_assoc d (10 ∷ []) rest)) in
    ap (λ t. listen_lines (file_lines t) []) apart
    ∙ listen_lines-part 105 (codes "d") refl evt.id [] (e ++ (d ++ 10 ∷ rest)) fi
    ∙ listen_lines-part 101 (codes "vent") refl evt.event i (d ++ 10 ∷ rest) fe
    ∙ listen_lines-part 100 (codes "ata") refl (some evt.text) (i ++ e) (10 ∷ rest) (present line)
    ∙ listen_lines-blank (i ++ e) evt.text rest
    ∙ ap (λ o. handled o (listen_lines (file_lines rest) []))
        (ap from_sse2event
            (append_assoc (i ++ e) d (10 ∷ []) ∙ append_assoc i e (d ++ 10 ∷ []) ∙ sym whole)
          ∙ from_sse2event-format_sse evt line fe fi)

-- A carriage return stands in a field.
abbrev pub has_return : EventSse → Bool
has_return evt =
    has_char 13 evt.text
    || elim evt.event as (λ x. Bool) [ none ↦ false | some e ↦ has_char 13 e ]
    || elim evt.id as (λ x. Bool) [ none ↦ false | some i ↦ has_char 13 i ]

has_char-field_line :
    (name v msg : Text)
    → has_char 13 name ≡ false
    → has_char 13 (field_line name v msg) ≡ (has_char 13 v || has_char 13 msg)
unfolding has_char
has_char-field_line name v msg h =
    has_char-append 13 name (b':' ∷ 32 ∷ v ++ 10 ∷ msg)
    ∙ ground (arith, has_char-append 13 v (10 ∷ msg))

has_char-format_sse :
    (d : Text) (e i : Option Text)
    → has_return (record { text = d; event = e; id = i }) ≡ false
    → has_char 13 (format_sse (record { text = d; event = e; id = i })) ≡ false
unfolding format_sse has_char
has_char-format_sse d none none h =
    ground (arith, has_char-field_line (codes "data") d (10 ∷ []) refl)
has_char-format_sse d (some e) none h = ground (
  arith,
  has_char-field_line (codes "data") d (10 ∷ []) refl,
  has_char-field_line (codes "event") e (field_line (codes "data") d (10 ∷ [])) refl,
)
has_char-format_sse d none (some i) h = ground (
  arith,
  has_char-field_line (codes "data") d (10 ∷ []) refl,
  has_char-field_line (codes "id") i (field_line (codes "data") d (10 ∷ [])) refl,
)
has_char-format_sse d (some e) (some i) h = ground (
  arith,
  has_char-field_line (codes "data") d (10 ∷ []) refl,
  has_char-field_line (codes "event") e (field_line (codes "data") d (10 ∷ [])) refl,
  has_char-field_line (codes "id") i
      (field_line (codes "event") e (field_line (codes "data") d (10 ∷ []))) refl,
)

-- The lines that the HTTP client gives of what was sent.
abbrev pub iter_lines : Text → List Text
iter_lines t = file_lines (universal false t)

-- Events whose fields are single lines without white space at their ends and without a carriage
-- return.
pub data AllLines : List EventSse → Type 0 where
  no_events : AllLines []
  one_event :
      {evt : EventSse} {evts : List EventSse}
      → IsLine evt.text
      → IsField evt.event
      → IsField evt.id
      → has_return evt ≡ false
      → AllLines evts
      → AllLines (evt ∷ evts)

-- The events in front of the first one whose data is `exit`.
abbrev pub until_exit : List EventSse → List EventSse × Ended
until_exit [] = ([], exhausted)
until_exit (evt ∷ evts) =
    if teq evt.text (codes "exit") then ([], returned) else yielding evt (until_exit evts)

events_listen-format_sse :
    (evts : List EventSse)
    → AllLines evts
    → events_listen (file_lines (concat (map format_sse evts))) ≡ until_exit evts
unfolding events_listen concat listen_lines file_lines
events_listen-format_sse [] no_events = refl
events_listen-format_sse (evt ∷ evts) (one_event line fe fi bare all) =
    listen_lines-event evt (concat (map format_sse evts)) line fe fi
    ∙ ap (handled (some evt)) (events_listen-format_sse evts all)

concat-clear :
    (evts : List EventSse) → AllLines evts → has_char 13 (concat (map format_sse evts)) ≡ false
unfolding concat has_char
concat-clear [] no_events = refl
concat-clear (evt ∷ evts) (one_event line fe fi bare all) =
    has_char-append 13 (format_sse evt) (concat (map format_sse evts))
    ∙ rw (has_char-format_sse evt.text evt.event evt.id bare, concat-clear evts all)

map-messages :
    (redis : Streams) (es : List Entry) → messages redis es ≡ map format_sse (map event_of es)
map-messages redis [] = refl
map-messages redis (e ∷ es) = ap (λ ms. format_sse (event_of e) ∷ ms) (map-messages redis es)

-- The server's loop and the client's, where the entries' fields are single lines without white space
-- at their ends and without a carriage return, and no id stands twice in the stream: the loop of the server comes to an end with
-- messages, from whose lines the client yields, in their order, the events that the server sends,
-- up to the first one whose data is `exit`, whatever its type; it returns there, or ends with the
-- stream.
pub events_listen-listen_loop :
    (redis : Streams) (fuel : ℕ) (front behind : List Entry) (e : Entry)
    (arrivals : List (List Entry))
    → length arrivals + 1 < fuel
    → is_distinct ((front ++ e ∷ behind) ++ all_entries arrivals) ≡ true
    → AllLines
        (map event_of (batches redis (behind ++ arrived redis arrivals) (to_come redis arrivals)))
    → (sent : List Text) × (listen_loop redis fuel e.id (front ++ e ∷ behind) arrivals ≡ some sent)
      × (events_listen (iter_lines (concat sent))
          ≡ until_exit (
              map event_of
                (batches redis (behind ++ arrived redis arrivals) (to_come redis arrivals))))
events_listen-listen_loop redis fuel front behind e arrivals enough once all =
    let es = batches redis (behind ++ arrived redis arrivals) (to_come redis arrivals) in
    (
      messages redis es,
      listen_loop_lem redis fuel front behind e arrivals enough once,
      ap (λ ms. events_listen (iter_lines (concat ms))) (map-messages redis es)
          ∙ ap (λ t. events_listen (file_lines t))
              (universal-clear (concat (map format_sse (map event_of es)))
                (concat-clear (map event_of es) all))
          ∙ events_listen-format_sse (map event_of es) all,
    )
