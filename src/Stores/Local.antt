-- ===== src/Stores/Local.antt =====
-- labfunctions/io/kvspec.py and labfunctions/io/kv_local.py: `KVLocal` and `AsyncKVLocal`, which
-- keep a value in a file of its own. The file system is the parameter `fs`. The two classes write
-- alike and differ in the pieces that `get_stream` reads.
pub mod Refine
use labfunctions.Prelude.{◌≡◌, List, [], ◌∷◌, ◌++◌, Option, none, some, true, false, Bool}
use labfunctions.Text.{Text, codes}
use labfunctions.Dict.{Dict, lookup}
use labfunctions.Effects.{Result, ok, err, Action, pure, raise, ◌>>=◌, ◌>>◌}
use labfunctions.Stores.Chunks.{Bytes, binary_file_reader, file_lines}
use labfunctions.Stores.Files.{FileSystem, Done, done}

-- `KeyReadError`, `KeyWriteError`, and an exception of the file system that is not caught.
pub data KvError : Type 0 where
  key_read_error : Text → Text → Text → KvError
  key_write_error : Text → Text → Text → KvError
  os_error : Text → KvError

pub record KvLocal : Type 0 where
  pub bucket : Text
  pub root : Text

-- `client_opts.get("root", "/tmp/labstore")`.
unfoldable pub new_store : Text → Dict Text → KvLocal
new_store bucket client_opts = elim (lookup (codes "root") client_opts) [
  | none ↦ record { bucket = bucket; root = codes "/tmp/labstore" }
  | some root ↦ record { bucket = bucket; root = root }
]

unfoldable pub uri : KvLocal → Text → Text
uri kv key = kv.root ++ b'/' ∷ kv.bucket ++ b'/' ∷ key

-- `except Exception as e`.
abbrev pub raising : {A : Type 0} → (Text → KvError) → Result Text A → Result KvError A
raising wrap (ok a) = ok a
raising wrap (err e) = err (wrap e)

module _ (fs : FileSystem) (parent : Text → Text) (kv : KvLocal) where
  -- A call of the file system, with what its exception is turned into.
  abbrev pub calling :
      {A : Type 0}
      → (Text → KvError)
      → (fs.State → Result Text A × fs.State)
      → Action fs.State KvError A
  calling wrap call s = let (r, s') = call s in (raising wrap r, s')

  abbrev pub write_error : Text → Text → KvError
  write_error key e = key_write_error kv.bucket key e

  abbrev pub read_error : Text → Text → KvError
  read_error key e = key_read_error kv.bucket key e

  -- `mkdir_p(Path(uri).parent)`, outside of the `try`, and `open(uri, "wb")`.
  unfoldable pub opened : Text → Action fs.State KvError Done
  unfolding uri
  opened key =
      calling os_error (λ s. fs.mkdir s (parent (uri kv key)))
      >> calling (write_error key) (λ s. fs.open_write s (uri kv key))

  unfoldable pub put : Text → Bytes → Action fs.State KvError Done
  unfolding opened uri
  put key bdata = opened key >> calling (write_error key) (λ s. fs.write s (uri kv key) bdata)

  -- `for chunk in generator: f.write(chunk)`
  unfoldable pub write_loop : Text → List Bytes → Action fs.State KvError Bool
  unfolding uri
  write_loop key [] = pure true
  write_loop key (chunk ∷ chunks) =
      calling (write_error key) (λ s. fs.write s (uri kv key) chunk) >> write_loop key chunks

  unfoldable pub put_stream : Text → List Bytes → Action fs.State KvError Bool
  unfolding opened write_loop
  put_stream key generator = opened key >> write_loop key generator

  unfoldable pub get : Text → fs.State → Result KvError Bytes
  unfolding uri
  get key s = raising (read_error key) (fs.read s (uri kv key))

  abbrev pub pieces :
      (Bytes → Option (List Bytes)) → Result KvError Bytes → Result KvError (Option (List Bytes))
  pieces f (ok b) = ok (f b)
  pieces f (err e) = err e

  -- `KVLocal.get_stream` takes the file line by line, `AsyncKVLocal.get_stream` by 1024 bytes.
  unfoldable pub get_stream_lines : Text → fs.State → Result KvError (Option (List Bytes))
  unfolding get file_lines
  get_stream_lines key s = pieces (λ b. some (file_lines b)) (get key s)

  unfoldable pub get_stream : Text → fs.State → Result KvError (Option (List Bytes))
  unfolding get binary_file_reader
  get_stream key s = pieces (binary_file_reader 1024) (get key s)
