-- ===== src/Events/Stream.antt =====
-- `EventManager.read` and `publish` of labfunctions/events.py, and the handler `event_listen` of
-- labfunctions/web/events_bp.py. The streams of Redis are the parameter `xread`: the entries that
-- stand behind the one with a given id. What the publishers do while the handler waits is the list
-- `arrivals`: what is added to the stream before each of its reads, and nothing when it is at its end.
pub mod Listen
pub mod Memory
use labfunctions.Prelude.{
  ℕ, zero, suc, ◌≡◌, Bool, true, false, not, ◌&&◌, ◌||◌, List, [], ◌∷◌, ◌++◌, Option, none, some,
  map, if◌then◌else◌,
}
use labfunctions.Text.{Text, codes, teq, any, is_empty}
use labfunctions.Events.{EventSse, format_sse}

-- An entry of a stream, with the fields that `publish` writes.
pub record Entry : Type 0 where
  pub id : Text
  pub msg : Text
  pub event : Text

abbrev pub or_empty : Option Text → Text
or_empty none = []
or_empty (some t) = t

-- `publish`; the id is the one that Redis gives to the entry.
unfoldable pub publish : Text → EventSse → List Entry → List Entry
publish id evt entries =
    entries ++ record { id = id; msg = evt.text; event = or_empty evt.event } ∷ []

unfoldable pub event_of : Entry → EventSse
event_of e = record { text = e.msg; event = some e.event; id = some e.id }

abbrev pub has_id : Text → Entry → Bool
has_id id e = teq e.id id

pub record Streams : Type 0 where
  pub xread : List Entry → Text → List Entry
  pub xread_lem :
      (front behind : List Entry) (e : Entry)
      → any (has_id e.id) front ≡ false
      → any (has_id e.id) behind ≡ false
      → xread (front ++ e ∷ behind) e.id ≡ behind

module _ (redis : Streams) where
  -- `if rsp:`; no entries are no answer.
  unfoldable pub read : List Entry → Text → List EventSse
  unfolding event_of
  read entries msg_id = map event_of (redis.xread entries msg_id)

  abbrev pub is_exit : EventSse → Bool
  is_exit r = elim r.event [
    | none ↦ false
    | some e ↦ teq e (codes "control") && teq r.text (codes "exit")
  ]

  -- `last = r.id` behind the loop over the events.
  abbrev pub last_id : Text → List EventSse → Text
  last_id last [] = last
  last_id last (r ∷ rsp) = elim r.id [ none ↦ last_id last rsp | some id ↦ last_id id rsp ]

  abbrev pub arrived : List (List Entry) → List Entry
  arrived [] = []
  arrived (now ∷ later) = now

  abbrev pub to_come : List (List Entry) → List (List Entry)
  to_come [] = []
  to_come (now ∷ later) = later

  abbrev pub sent_before : List Text → Option (List Text) → Option (List Text)
  sent_before msgs none = none
  sent_before msgs (some rest) = some (msgs ++ rest)

  -- `while keep:`; the messages that are sent, or `none` when `fuel` reads are not enough.
  unfoldable pub listen_loop : ℕ → Text → List Entry → List (List Entry) → Option (List Text)
  unfolding read
  listen_loop zero last entries arrivals = none
  listen_loop (suc fuel) last entries arrivals =
      let entries' = entries ++ arrived arrivals in
      let rsp = read entries' last in
      let rest = listen_loop fuel (last_id last rsp) entries' (to_come arrivals) in
      if is_empty rsp
      then some []
      else if any is_exit rsp
      then some (map format_sse rsp)
      else sent_before (map format_sse rsp) rest
