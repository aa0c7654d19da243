-- ===== src/Events/Stream/Memory.antt =====
-- Streams in memory, at which the listeners are run.
use labfunctions.Prelude.{◌≡◌, false, List, [], ◌∷◌, ◌++◌, if◌then◌else◌, arith}
use labfunctions.Text.{Text, codes, teq, teq_refl, any}
use labfunctions.Events.Stream.{Entry, Streams, has_id}

-- Streams that are searched for the id.
unfoldable pub xread : List Entry → Text → List Entry
xread [] id = []
xread (e ∷ es) id = if teq e.id id then es else xread es id

pub xread_lem :
    (front behind : List Entry) (e : Entry)
    → any (has_id e.id) front ≡ false
    → any (has_id e.id) behind ≡ false
    → xread (front ++ e ∷ behind) e.id ≡ behind
unfolding xread
xread_lem [] behind e h k = rw (teq_refl e.id)
xread_lem (f ∷ front) behind e h k = ground (arith, xread_lem front behind e, h, k)

abbrev pub memory : Streams
memory = record { xread = xread; xread_lem = xread_lem }

abbrev pub entry : Text → Text → Entry
entry id msg = record { id = id; msg = msg; event = codes "control" }
