-- ===== src/Stores/Tests.antt =====
-- Runs of the key value stores.
use labfunctions.Prelude.{◌≡◌, ◌↔◌, List, [], ◌∷◌, Option, none, some, arith, if◌then◌else◌}
use labfunctions.Text.{Text, codes, teq}
use labfunctions.Dict.{lookup, insert}
use labfunctions.Stores.Chunks.{Bytes, binary_file_reader, concat}
use labfunctions.Stores.Chunks.Whole.{Covers, binary_file_reader-Covers}
use labfunctions.Stores.Memory.{Files}
use labfunctions.Stores.Local.{KvLocal, new_store}
use labfunctions.Stores.Http.{KvFiles, Response, url_of, get, get_async}
use labfunctions.Stores.Http.Laws.{get-get_async}
use labfunctions.Stores.Runs.{Command, put_bytes, put_chunks, get_bytes, get_lines, get_pieces}

abbrev calls : List Command
calls =
    put_bytes (codes "k") (1 ∷ 2 ∷ [])
    ∷ get_bytes (codes "k")
    ∷ put_chunks (codes "k") ((3 ∷ []) ∷ (10 ∷ 4 ∷ []) ∷ [])
    ∷ get_lines (codes "k")
    ∷ get_pieces (codes "k")
    ∷ get_bytes (codes "j")
    ∷ []

binary_file_reader-Covers_example :
    Covers 2 (1 ∷ 2 ∷ 3 ∷ []) (binary_file_reader 2 (1 ∷ 2 ∷ 3 ∷ []))
binary_file_reader-Covers_example = binary_file_reader-Covers 2 (1 ∷ 2 ∷ 3 ∷ []) (ground arith)

-- A file server that answers GET, and takes anything else for PUT.
abbrev page : Option Bytes → Response
page none = record { status_code = 404; content = codes "Not Found" }
page (some b) = record { status_code = 200; content = b }

abbrev served : Text → Text → Bytes → Files → Response × Files
served m u b s =
    if teq m (codes "GET")
    then (page (lookup u s), s)
    else (record { status_code = 201; content = [] }, insert u b s)

abbrev remote : KvFiles
remote = record { base = codes "h"; bucket = codes "b" }

get-get_async_example :
    ((get served remote (codes "k") []).0 ≡ (get_async served remote (codes "k") []).0)
    ↔ ((served (codes "GET") (url_of remote (codes "k")) [] []).0.status_code ≡ 200)
get-get_async_example = get-get_async served remote (codes "k") []
