-- ===== src/Stores/Http.antt =====
-- labfunctions/io/kv_files.py: `KVFiles` and `AsyncKVFiles`, which keep the values on a file server.
-- `request` is the HTTP client: the method, the URL and the body that is sent, and the status, the
-- body that comes back and the state of the server.
pub mod Laws
use labfunctions.Prelude.{
  ℕ, ◌≡◌, List, ◌++◌, ◌∷◌, [], Option, none, some, Bool, true, false, ◌==◌, if◌then◌else◌,
}
use labfunctions.Text.{Text, codes}
use labfunctions.Stores.Chunks.{Bytes, concat}

pub record KvFiles : Type 0 where
  pub base : Text
  pub bucket : Text

pub record Response : Type 0 where
  pub status_code : ℕ
  pub content : Bytes

unfoldable pub url : KvFiles → Text
url kv = kv.base ++ b'/' ∷ kv.bucket

abbrev pub url_of : KvFiles → Text → Text
url_of kv key = url kv ++ b'/' ∷ key

module _ {S : Type 0} (request : Text → Text → Bytes → S → Response × S) (kv : KvFiles) where
  abbrev pub created : Response × S → Bool × S
  created (r, s) = (if r.status_code == 201 then true else false, s)

  unfoldable pub put : Text → Bytes → S → Bool × S
  put key bdata s = created (request (codes "PUT") (url_of kv key) bdata s)

  -- `AsyncKVFiles.put_stream`; the body that is sent is that of the whole stream.
  unfoldable pub put_stream : Text → List Bytes → S → Bool × S
  put_stream key generator s = created (request (codes "PUT") (url_of kv key) (concat generator) s)

  abbrev pub content_of : Response × S → Option Bytes × S
  content_of (r, s) = (if r.status_code == 200 then some r.content else none, s)

  -- `KVFiles.get`.
  unfoldable pub get : Text → S → Option Bytes × S
  get key s = content_of (request (codes "GET") (url_of kv key) [] s)

  abbrev pub any_content : Response × S → Option Bytes × S
  any_content (r, s) = (some r.content, s)

  -- `AsyncKVFiles.get`, which does not look at the status.
  unfoldable pub get_async : Text → S → Option Bytes × S
  get_async key s = any_content (request (codes "GET") (url_of kv key) [] s)
