-- ===== src/Stores/Local/Refine.antt =====
-- The store on files against a map from the files to their bytes.
use labfunctions.Prelude.{
  ◌≡◌, sym, ap, ◌∙◌, List, [], ◌∷◌, ◌++◌, append_assoc, append-nil, Option, some, Bool,
  if◌then◌else◌, arith, Bool-cases, inl, inr,
}
use labfunctions.Text.{Text, teq, teq_refl, eq_of_teq}
use labfunctions.Effects.{Result, ok, err}
use labfunctions.Effects.Sequence.{then_Splits}
use labfunctions.Stores.Chunks.{Bytes, concat}
use labfunctions.Stores.Files.{FileSystem, Done, done}
use labfunctions.Stores.Local.{
  KvError, KvLocal, uri, opened, put, put_stream, write_loop, calling, raising, write_error,
  os_error,
}

raising_ok :
    {A : Type 0} (wrap : Text → KvError) (r : Result Text A) (a : A)
    → raising wrap r ≡ ok a
    → r ≡ ok a
raising_ok wrap (ok b) a h = ground arith
raising_ok wrap (err e) a h = cc

module _ (fs : FileSystem) (parent : Text → Text) (kv : KvLocal) where
  -- The file of a key.
  abbrev pub file_of : Text → Text
  file_of key = fs.resolve (uri kv key)

  -- A map that is changed at one file.
  abbrev pub updated : Text → Bytes → (Text → Option Bytes) → Text → Option Bytes
  updated p b m f = if teq p f then some b else m f

  -- What a call that succeeds says of the file system.
  called :
      (wrap : Text → KvError) (call : fs.State → Result Text Done × fs.State) (s : fs.State)
      (d : Done)
      → (calling fs parent kv wrap call s).0 ≡ ok d
      → (call s).0 ≡ ok done
  called wrap call s done h = raising_ok wrap (call s).0 done h

  opened_lem :
      (key : Text) (s : fs.State) (f : Text) (d : Done)
      → (opened fs parent kv key s).0 ≡ ok d
      → fs.contents (opened fs parent kv key s).1 f ≡ updated (file_of key) [] (fs.contents s) f
  unfolding opened
  opened_lem key s f d h =
      let dir = parent (uri kv key) in
      let (d', h1, h2, e) =
        then_Splits (calling fs parent kv os_error (λ s. fs.mkdir s dir))
          (calling fs parent kv (write_error fs parent kv key) (λ s. fs.open_write s (uri kv key)))
          s d h in
      ap (λ s'. fs.contents s' f) e
      ∙ fs.contents-open_write (fs.mkdir s dir).1 (uri kv key) f (
          called (write_error fs parent kv key) (λ s. fs.open_write s (uri kv key))
            (fs.mkdir s dir).1 d h2)
      ∙ ap (λ o. if teq (file_of key) f then some [] else o)
          (fs.contents-mkdir s dir f (called os_error (λ s. fs.mkdir s dir) s d' h1))

  twice :
      (p f : Text) (a b : Bytes) (m : Text → Option Bytes)
      → updated p b (updated p a m) f ≡ updated p b m f
  twice p f a b m = ground arith

  written_lem :
      (key : Text) (s : fs.State) (f : Text) (a b : Bytes) (d : Done)
      → fs.contents s (file_of key) ≡ some a
      → (calling fs parent kv (write_error fs parent kv key) (λ s. fs.write s (uri kv key) b) s).0
        ≡ ok d
      → fs.contents (fs.write s (uri kv key) b).1 f
        ≡ updated (file_of key) (a ++ b) (fs.contents s) f
  written_lem key s f a b d there h =
      fs.contents-write s (uri kv key) f a b there
        (called (write_error fs parent kv key) (λ s. fs.write s (uri kv key) b) s d h)

  -- A write that succeeds changes the file of its key to the bytes that were given, and no other.
  pub contents-put :
      (key : Text) (b : Bytes) (s : fs.State) (f : Text)
      → (put fs parent kv key b s).0 ≡ ok done
      → fs.contents (put fs parent kv key b s).1 f ≡ updated (file_of key) b (fs.contents s) f
  unfolding put
  contents-put key b s f h =
      let (d, h1, h2, e) =
        then_Splits (opened fs parent kv key)
          (calling fs parent kv (write_error fs parent kv key) (λ s. fs.write s (uri kv key) b)) s
          done h in
      let s' = (opened fs parent kv key s).1 in
      ap (λ s'. fs.contents s' f) e
      ∙ written_lem key s' f [] b done
          (opened_lem key s (file_of key) d h1 ∙ rw (teq_refl (file_of key))) h2
      ∙ rw (opened_lem key s f d h1) (twice (file_of key) f [] b (fs.contents s))

  unchanged :
      (p f : Text) (a : Bytes) (m : Text → Option Bytes)
      → m p ≡ some a
      → m f ≡ updated p (a ++ []) m f
  unchanged p f a m there = elim (Bool-cases (teq p f)) [
    | inl e ↦ rw (e, append-nil a) (ap m (sym (eq_of_teq p f e)) ∙ there)
    | inr e ↦ rw e
  ]

  contents-write_loop :
      (key : Text) (chunks : List Bytes) (s : fs.State) (f : Text) (a : Bytes) (r : Bool)
      → fs.contents s (file_of key) ≡ some a
      → (write_loop fs parent kv key chunks s).0 ≡ ok r
      → fs.contents (write_loop fs parent kv key chunks s).1 f
        ≡ updated (file_of key) (a ++ concat chunks) (fs.contents s) f
  unfolding write_loop concat
  contents-write_loop key [] s f a r there h = unchanged (file_of key) f a (fs.contents s) there
  contents-write_loop key (chunk ∷ chunks) s f a r there h =
      let (d, h1, h2, e) =
        then_Splits
          (calling fs parent kv (write_error fs parent kv key) (λ s. fs.write s (uri kv key) chunk))
          (write_loop fs parent kv key chunks) s r h in
      let s' = (fs.write s (uri kv key) chunk).1 in
      ap (λ s'. fs.contents s' f) e
      ∙ contents-write_loop key chunks s' f (a ++ chunk) r
          (written_lem key s (file_of key) a chunk d there h1 ∙ rw (teq_refl (file_of key))) h2
      ∙ rw (written_lem key s f a chunk d there h1, append_assoc a chunk (concat chunks))
          (twice (file_of key) f (a ++ chunk) (a ++ (chunk ++ concat chunks)) (fs.contents s))

  -- So does a write of a stream, with its chunks put together.
  pub contents-put_stream :
      (key : Text) (chunks : List Bytes) (s : fs.State) (f : Text) (r : Bool)
      → (put_stream fs parent kv key chunks s).0 ≡ ok r
      → fs.contents (put_stream fs parent kv key chunks s).1 f
        ≡ updated (file_of key) (concat chunks) (fs.contents s) f
  unfolding put_stream
  contents-put_stream key chunks s f r h =
      let (d, h1, h2, e) =
        then_Splits (opened fs parent kv key) (write_loop fs parent kv key chunks) s r h in
      let s' = (opened fs parent kv key s).1 in
      ap (λ s'. fs.contents s' f) e
      ∙ contents-write_loop key chunks s' f [] r
          (opened_lem key s (file_of key) d h1 ∙ rw (teq_refl (file_of key))) h2
      ∙ rw (opened_lem key s f d h1) (twice (file_of key) f [] (concat chunks) (fs.contents s))
