-- ===== src/Runtimes/Uploads.antt =====
-- The names of the bundles that are uploaded.
use labfunctions.Prelude.{◌≡◌, true, false, ◌++◌, ◌∷◌, Option, arith}
use labfunctions.Text.{Text, has_char, is_empty}
use labfunctions.Text.Split.{rsplit_once-append}
use labfunctions.Text.Strip.{starts_clear}
use labfunctions.Types.Runtimes.{RuntimeSpec}
use labfunctions.Utils.Filename.{is_edge, secure_filename}
use labfunctions.Utils.Filename.Safe.{secure_filename-IsSecure}
use labfunctions.Runtimes.{project_uploads, last_part, zip_of, build_upload_uri, create_build_ctx}

-- What `pathlib` documents for a name that is put below a directory: the path ends in "/" and the
-- name, if the name is one part, that is, neither empty nor with a "/", and does not stand for the
-- directory itself.
abbrev pub EndsInName : (Text → Text → Text) → Type 0
EndsInName path_join =
    (projectid name : Text)
    → is_empty name ≡ false
    → has_char b'/' name ≡ false
    → starts_clear is_edge name ≡ true
    → (front : Text) × (path_join (path_join projectid project_uploads) name ≡ front ++ b'/' ∷ name)

last_part-append :
    (front name : Text) → has_char b'/' name ≡ false → last_part (front ++ b'/' ∷ name) ≡ name
unfolding last_part
last_part-append front name h = ground (arith, rsplit_once-append b'/' front name h)

-- The bundle of a build is the secured name of its runtime and version, whatever slashes the name
-- of the runtime or the project has, unless nothing of the name is left, and it is the last part
-- of the path that is downloaded.
pub create_build_ctx-zip_name :
    {V : Type 0} (nfkd : Text → Text) (path_join : Text → Text → Text) (random projectid : Text)
    (spec : RuntimeSpec V) (version cls bucket : Text) (registry : Option Text)
    → EndsInName path_join
    → is_empty (secure_filename nfkd (zip_of spec.name version)) ≡ false
    → ((create_build_ctx nfkd path_join random projectid spec version cls bucket registry).zip_name
        ≡ secure_filename nfkd (zip_of spec.name version))
      × ((front : Text) × ((create_build_ctx nfkd path_join random projectid spec version cls bucket
              registry).download_zip
            ≡ front ++ b'/' ∷ secure_filename nfkd (zip_of spec.name version)))
unfolding create_build_ctx build_upload_uri
create_build_ctx-zip_name nfkd path_join random projectid spec version cls bucket registry ends
      filled =
    let name = secure_filename nfkd (zip_of spec.name version) in
    let (secure, clear) = secure_filename-IsSecure nfkd (zip_of spec.name version) in
    let (front, same) = ends projectid name filled clear secure.left in
    (rw same (last_part-append front name clear), (front, same))
