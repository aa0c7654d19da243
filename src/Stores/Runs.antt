-- ===== src/Stores/Runs.antt =====
-- Sequences of calls of a store on files, beside the same calls of a map.
pub mod Refine
use labfunctions.Prelude.{
  ◌≡◌, refl, sym, ap, ◌∙◌, ◌<◌, List, [], ◌∷◌, Option, none, some, Bool, true, false, ◌&&◌, arith,
}
use labfunctions.Text.{Text, all}
use labfunctions.Effects.{Result, ok, err}
use labfunctions.Stores.Chunks.{Bytes, concat, binary_file_reader, file_lines}
use labfunctions.Stores.Chunks.Whole.{binary_file_reader-Covers, concat-file_lines}
use labfunctions.Stores.Files.{FileSystem, Done, done, read_result}
use labfunctions.Stores.Local.{
  KvError, KvLocal, uri, put, put_stream, get, get_stream, get_stream_lines, key_read_error,
  raising, pieces, read_error,
}
use labfunctions.Stores.Local.Refine.{file_of, updated, contents-put, contents-put_stream}

pub data Command : Type 0 where
  put_bytes : Text → Bytes → Command
  put_chunks : Text → List Bytes → Command
  get_bytes get_lines get_pieces : Text → Command

pub data Answer : Type 0 where
  written : Answer
  not_written : KvError → Answer
  value : Bytes → Answer
  no_value : KvError → Answer
  unfinished : Answer

abbrev pub is_answered : Answer → Bool
is_answered (not_written e) = false
is_answered _ = true

abbrev pub write_answer : {A : Type 0} → Result KvError A → Answer
write_answer (ok a) = written
write_answer (err e) = not_written e

abbrev pub read_answer : Result KvError Bytes → Answer
read_answer (ok b) = value b
read_answer (err e) = no_value e

-- A client that puts the pieces of a stream together.
abbrev pub joined : Result KvError (Option (List Bytes)) → Answer
joined (ok none) = unfinished
joined (ok (some cs)) = value (concat cs)
joined (err e) = no_value e

-- A map from files to bytes.
abbrev pub Store : Type 0
Store = Text → Option Bytes

module _ (fs : FileSystem) (parent : Text → Text) (kv : KvLocal) where
  abbrev pub answers : {A : Type 0} → Result KvError A × fs.State → Answer × fs.State
  answers (r, s) = (write_answer r, s)

  abbrev pub call : Command → fs.State → Answer × fs.State
  call (put_bytes key b) s = answers (put fs parent kv key b s)
  call (put_chunks key cs) s = answers (put_stream fs parent kv key cs s)
  call (get_bytes key) s = (read_answer (get fs parent kv key s), s)
  call (get_lines key) s = (joined (get_stream_lines fs parent kv key s), s)
  call (get_pieces key) s = (joined (get_stream fs parent kv key s), s)

  abbrev pub run : List Command → fs.State → List Answer × fs.State
  run [] s = ([], s)
  run (c ∷ cs) s = let (a, s') = call c s in let (rest, s'') = run cs s' in (a ∷ rest, s'')

  -- What a map answers.
  abbrev pub found_in : Store → Text → Answer
  found_in m key = read_answer (
      raising (read_error fs parent kv key)
        (read_result (fs.no_file (uri kv key)) (m (file_of fs parent kv key))))

  abbrev pub spec_call : Command → Store → Answer × Store
  spec_call (put_bytes key b) m = (written, updated fs parent kv (file_of fs parent kv key) b m)
  spec_call (put_chunks key cs) m =
      (written, updated fs parent kv (file_of fs parent kv key) (concat cs) m)
  spec_call (get_bytes key) m = (found_in m key, m)
  spec_call (get_lines key) m = (found_in m key, m)
  spec_call (get_pieces key) m = (found_in m key, m)

  abbrev pub spec_run : List Command → Store → List Answer × Store
  spec_run [] m = ([], m)
  spec_run (c ∷ cs) m =
      let (a, m') = spec_call c m in let (rest, m'') = spec_run cs m' in (a ∷ rest, m'')
