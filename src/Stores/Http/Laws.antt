-- ===== src/Stores/Http/Laws.antt =====
-- The two clients of the file server against each other, and against the server.
use labfunctions.Prelude.{◌≡◌, ◌↔◌, [], some, true, arith}
use labfunctions.Text.{Text, codes}
use labfunctions.Stores.Chunks.{Bytes}
use labfunctions.Stores.Http.{
  KvFiles, Response, url_of, put, get, get_async, created, content_of, any_content,
}

module _ {S : Type 0} (request : Text → Text → Bytes → S → Response × S) (kv : KvFiles) where
  agree :
      (p : Response × S)
      → ((content_of request kv p).0 ≡ (any_content request kv p).0) ↔ (p.0.status_code ≡ 200)
  agree (r, s) = ground arith

  -- The two `get`s answer the same exactly when the server answers 200.
  pub get-get_async :
      (key : Text) (s : S)
      → ((get request kv key s).0 ≡ (get_async request kv key s).0)
        ↔ ((request (codes "GET") (url_of kv key) [] s).0.status_code ≡ 200)
  unfolding get get_async
  get-get_async key s = agree (request (codes "GET") (url_of kv key) [] s)

  taken : (p : Response × S) → (created request kv p).0 ≡ true → p.0.status_code ≡ 201
  taken (r, s) h = ground arith

  given :
      (p : Response × S) (b : Bytes)
      → p.0 ≡ record { status_code = 200; content = b }
      → (content_of request kv p).0 ≡ some b
  given (r, s) b h = rw h

  -- With a server that keeps the body of a PUT that it answers 201, and then answers a GET of the
  -- same URL with 200 and that body: a `get` behind a `put` that gave `True` gives back what was put.
  pub get-put :
      ((u : Text) (b : Bytes) (s : S)
        → (request (codes "PUT") u b s).0.status_code ≡ 201
        → (request (codes "GET") u [] (request (codes "PUT") u b s).1).0
          ≡ record { status_code = 200; content = b })
      → (key : Text) (bdata : Bytes) (s : S) → (put request kv key bdata s).0 ≡ true
      → (get request kv key (put request kv key bdata s).1).0 ≡ some bdata
  unfolding get put
  get-put server key bdata s h =
      given (request (codes "GET") (url_of kv key) [] (put request kv key bdata s).1) bdata
        (server (url_of kv key) bdata s (taken (request (codes "PUT") (url_of kv key) bdata s) h))
