-- ===== src/Ident/ExecId.antt =====
-- labfunctions/executors/execid.py: the id of an execution and the signs put in front of it. The
-- random id of `generate_random` is an argument.
use labfunctions.Prelude.{
  ◌≡◌, refl, true, false, List, [], ◌∷◌, ◌++◌, Option, none, some, if◌then◌else◌, arith, sym,
  append_assoc,
}
use labfunctions.Text.{Text, codes, is_empty, has_char}
use labfunctions.Text.Split.{rsplit_once, rsplit_once-append, has_char-append}

pub data FirmType : Type 0 where
  start build dispatcher docker web local machine : FirmType

-- The values of `FirmsTypes`, by attribute.
abbrev pub firm_name : FirmType → Text
firm_name start = codes "0"
firm_name build = codes "bld"
firm_name dispatcher = codes "dsp"
firm_name docker = codes "dck"
firm_name web = codes "web"
firm_name local = codes "loc"
firm_name machine = codes "mch"

-- `execid or generate_random(...)`, with the prefix in front.
abbrev chosen : Text → Option Text → Text
chosen random none = random
chosen random (some e) = if is_empty e then random else e

abbrev with_prefix : Option Text → Text → Text
with_prefix none id = id
with_prefix (some p) id = p ++ id

unfoldable pub exec_id : Text → Option Text → Option Text → Text
exec_id random execid prefix = with_prefix prefix (chosen random execid)

-- The id after `firm_with`, which the method also returns.
unfoldable pub firm_with : Text → Text → Text
firm_with firm id = firm ++ b'.' ∷ id

unfoldable pub firm_by_type : FirmType → Text → Text
unfolding firm_with
firm_by_type t id = firm_with (firm_name t) id

abbrev behind : Text → Option (Text × Text) → Text
behind id none = id
behind id (some (_, pure)) = pure

-- `self._id.rsplit(".", maxsplit=1)[1]` if there is a dot.
unfoldable pub pure : Text → Text
pure id = if has_char b'.' id then behind id (rsplit_once b'.' id) else id

-- Firms, the last one in front.
unfoldable pub firm_all : List Text → Text → Text
unfolding firm_with
firm_all [] id = id
firm_all (f ∷ firms) id = firm_with f (firm_all firms id)

has_dot : (front id : Text) → has_char b'.' (front ++ b'.' ∷ id) ≡ true
unfolding has_char
has_dot front id = rw has_char-append (ground arith)

pure-signed : (front id : Text) → has_char b'.' id ≡ false → pure (front ++ b'.' ∷ id) ≡ id
unfolding pure
pure-signed front id h = rw (has_dot front id, rsplit_once-append b'.' front id h)

firm_all-front :
    (firm : Text) (firms : List Text) (id : Text)
    → (front : Text) × (firm_all (firm ∷ firms) id ≡ front ++ b'.' ∷ id)
unfolding firm_all
firm_all-front firm [] id = (firm, refl)
firm_all-front firm (f ∷ firms) id =
    let (front, q) = firm_all-front f firms id in
    (firm ++ b'.' ∷ front, rw q (sym (append_assoc firm (b'.' ∷ front) (b'.' ∷ id))))

-- However many firms are put in front, `pure` gives back an id without a dot.
pub pure-firm_all :
    (firms : List Text) (id : Text) → has_char b'.' id ≡ false → pure (firm_all firms id) ≡ id
pure-firm_all [] id h = unfold pure firm_all in rw h
pure-firm_all (f ∷ firms) id h =
    let (front, q) = firm_all-front f firms id in rw q (pure-signed front id h)
