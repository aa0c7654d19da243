-- ===== src/Stores/Chunks.antt =====
-- The loops that read bytes piece by piece: `binary_file_reader` of labfunctions/utils.py,
-- `AsyncKVLocal.get_stream` and `KVLocal.get_stream` of labfunctions/io/kv_local.py, and
-- `stream_reader` of labfunctions/web/utils.py. An open file is the list of the bytes that are left.
pub mod Whole
use labfunctions.Prelude.{
  ℕ, zero, suc, ◌≡◌, refl, ap, ◌∙◌, ◌+◌, Bool, true, ◌&&◌, not, List, [], ◌∷◌, ◌++◌, Option, none,
  some, ◌≤◌, ◌==◌, leb, ltb, arith, if◌then◌else◌,
}
use labfunctions.Text.{length, is_empty, all}

abbrev pub Bytes : Type 0
Bytes = List ℕ

-- `f.read(size)`, and what is left of the file behind it.
unfoldable pub take : ℕ → Bytes → Bytes
take zero b = []
take (suc n) [] = []
take (suc n) (c ∷ b) = c ∷ take n b

unfoldable pub drop : ℕ → Bytes → Bytes
drop zero b = b
drop (suc n) [] = []
drop (suc n) (c ∷ b) = drop n b

abbrev behind : {A : Type 0} → A → Option (List A) → Option (List A)
behind c none = none
behind c (some cs) = some (c ∷ cs)

-- `while True: data = f.read(size); if not data: break; yield data`. The answer is `none` when the
-- loop has not ended after `fuel` reads.
unfoldable pub read_loop : ℕ → ℕ → Bytes → Option (List Bytes)
read_loop zero size b = none
read_loop (suc fuel) size b =
    let piece = take size b in
    let rest = read_loop fuel size (drop size b) in
    if is_empty piece then some [] else behind piece rest

-- One read for each byte and the one that finds the end are enough.
unfoldable pub binary_file_reader : ℕ → Bytes → Option (List Bytes)
unfolding read_loop
binary_file_reader size b = read_loop (length b + 1) size b

abbrev pub in_front : ℕ → List Bytes → List Bytes
in_front c [] = (c ∷ []) ∷ []
in_front c (l ∷ ls) = (c ∷ l) ∷ ls

-- `for chunk in f` of a file that is open for bytes: its lines, each with its line feed.
unfoldable pub file_lines : Bytes → List Bytes
file_lines [] = []
file_lines (c ∷ b) = let rest = file_lines b in if c == 10 then (c ∷ []) ∷ rest else in_front c rest

-- `body = await request.stream.read()` until it is `None`.
unfoldable pub stream_reader : List (Option Bytes) → List Bytes
stream_reader [] = []
stream_reader (none ∷ reads) = []
stream_reader (some body ∷ reads) = body ∷ stream_reader reads

unfoldable pub concat : List Bytes → Bytes
concat [] = []
concat (c ∷ cs) = c ++ concat cs
