-- ===== src/Cache.antt =====
-- labfunctions/io/cache.py: results kept on disk for `frozen_result`. The disk is a dictionary
-- from paths to contents. Times are in microseconds. What the module takes from elsewhere is the
-- record `Outside`: `cloudpickle`, `json` for the one dictionary that is written, the parser of
-- dates, and the file server, which the source reads and writes over HTTP.
mod Tests
pub mod Validity
pub mod Local
use labfunctions.Prelude.{
  ℕ, ◌+◌, ◌-◌, ◌*◌, ◌/◌, ◌%◌, ◌==◌, leb, ltb, ◌≡◌, Bool, true, false, not, ◌&&◌, ◌||◌, List, [],
  ◌∷◌, ◌++◌, Option, none, some, if◌then◌else◌,
}
use labfunctions.Text.{Text, codes, is_empty, teq}
use labfunctions.Dict.{Dict, lookup, insert}
use labfunctions.Effects.{Result, ok, err, Action, pure, raise, ◌>>=◌, ◌>>◌}

-- `SimpleExecCtx` with texts.
pub record Ctx : Type 0 where
  pub wfid : Text
  pub execid : Text
  pub execution_dt : Text

pub record CacheConfig : Type 0 where
  pub name : Text
  pub ctx : Ctx
  pub valid_for_min : ℕ
  pub strategy : Text

-- `TypeError` of unpacking `None`; any other exception of a read.
pub data CacheError : Type 0 where
  type_error read_error : CacheError

-- What `cloudpickle.load` raises: `EOFError` for a file that ends too early, or something else.
pub data LoadError : Type 0 where
  eof_error other_error : LoadError

pub record Disk (Remote : Type 0) : Type 0 where
  pub files : Dict Text
  pub remote : Remote

-- `V` is the type of Python's values: a text is one, by `str`.
pub record Outside (V : Type 0) : Type 1 where
  pub str : Text → V
  pub truthy : V → Bool
  pub dumps : V → Text
  pub loads : Text → Result LoadError V
  pub json_dumps : Ctx → Text
  pub json_loads : Text → Option Ctx
  pub fromisoformat : Text → ℕ
  pub Remote : Type 0
  pub write_fileserver : Text → V → Ctx → Remote → Remote
  pub restore_fileserver : Text → Ctx → Remote → Option V × Option Ctx
  pub loads-dumps : (v : V) → loads (dumps v) ≡ ok v
  pub json_loads-dumps : (c : Ctx) → json_loads (json_dumps c) ≡ some c

abbrev pub day : ℕ
day = 86400 * 1000000

-- `(now - dt).seconds`: the part of the difference below a day, in whole seconds. The days of a
-- negative difference are rounded down, so its part is not negative either.
unfoldable pub timedelta_seconds : ℕ → ℕ → ℕ
timedelta_seconds now dt =
    if leb dt now then (now - dt) % day / 1000000 else (day - (dt - now) % day) % day / 1000000

-- `round(seconds / 60)`: a half goes to the even side. The seconds are below a day, where the
-- float quotient is on the same side of each half as the exact one.
unfoldable pub round_minutes : ℕ → ℕ
round_minutes s =
    let q = s / 60 in
    let r = s % 60 in
    if ltb r 30 then q else if ltb 30 r then q + 1 else if q % 2 == 0 then q else q + 1

unfoldable pub is_valid_date : ℕ → ℕ → ℕ → Bool
is_valid_date now dt valid_for_min =
    let elapsed = round_minutes (timedelta_seconds now dt) in
    if ltb valid_for_min elapsed then false else true

module _ {V : Type 0} (out : Outside V) where
  -- f"/tmp/{ctx.wfid}.{ctx.execid}.{name}" with an extension
  abbrev pub cache_path : Text → Ctx → Text → Text
  cache_path name ctx ext =
      codes "/tmp/" ++ (ctx.wfid ++ b'.' ∷ (ctx.execid ++ b'.' ∷ (name ++ ext)))

  abbrev pub fpath : Text → Ctx → Text
  fpath name ctx = cache_path name ctx (codes ".pickle")

  abbrev pub metapath : Text → Ctx → Text
  metapath name ctx = cache_path name ctx (codes ".json")

  abbrev State : Type 0
  State = Disk out.Remote

  unfoldable pub write_pickle : Text → V → Ctx → State → State
  write_pickle name v ctx s = record s {
    files =
        insert (metapath name ctx) (out.json_dumps ctx)
          (insert (fpath name ctx) (out.dumps v) s.files);
  }

  -- The second `with` block: the name `data` is bound again to the text of the second file.
  abbrev with_meta : Option Text → Result CacheError (Option (V × Ctx))
  with_meta none = ok none
  with_meta (some content) = elim (out.json_loads content) [
    | none ↦ err read_error
    | some meta ↦ ok (some (out.str content, meta))
  ]

  -- The `with` blocks in order. `none` is the `return None` of the two handlers, for a file that is
  -- missing and for one that ends too early; other errors of the parsers leave the function.
  unfoldable pub restore_pickle : Text → Ctx → State → Result CacheError (Option (V × Ctx))
  restore_pickle name ctx s = elim (lookup (fpath name ctx) s.files) [
    | none ↦ ok none
    | some pickled ↦ elim (out.loads pickled) [
      | err eof_error ↦ ok none
      | err other_error ↦ err read_error
      | ok first ↦ with_meta (lookup (metapath name ctx) s.files)
    ]
  ]

  abbrev is_local : CacheConfig → Bool
  is_local conf = teq conf.strategy (codes "local") && not (is_empty conf.ctx.wfid)

  abbrev is_fileserver : CacheConfig → Bool
  is_fileserver conf = teq conf.strategy (codes "fileserver") && not (is_empty conf.ctx.wfid)

  unfoldable pub cache_manager_write : V → CacheConfig → State → State
  cache_manager_write v conf s =
      if is_local conf
      then write_pickle conf.name v conf.ctx s
      else if is_fileserver conf
      then record s { remote = out.write_fileserver conf.name v conf.ctx s.remote }
      else s

  -- `data, meta = _restore_pickle(...)`: the unpacking of `None` raises `TypeError`.
  abbrev unpack : Result CacheError (Option (V × Ctx)) → Result CacheError (Option V × Option Ctx)
  unpack (ok none) = err type_error
  unpack (ok (some (v, meta))) = ok (some v, some meta)
  unpack (err e) = err e

  unfoldable pub cache_manager_read :
      CacheConfig → State → Result CacheError (Option V × Option Ctx)
  cache_manager_read conf s =
      if is_local conf
      then unpack (restore_pickle conf.name conf.ctx s)
      else if is_fileserver conf
      then ok (out.restore_fileserver conf.name conf.ctx s.remote)
      else ok (none, none)

  abbrev is_truthy : Option V → Bool
  is_truthy none = false
  is_truthy (some v) = out.truthy v

  abbrev is_fresh : ℕ → ℕ → Option Ctx → Bool
  is_fresh now valid_for_min none = false
  is_fresh now valid_for_min (some meta) =
      is_valid_date now (out.fromisoformat meta.execution_dt) valid_for_min

  -- The body of `wrapper` behind the read; `func()` has given `result`, which is read only where
  -- the function is called.
  abbrev answer : ℕ → CacheConfig → V → Option V × Option Ctx → Action State CacheError (Option V)
  answer now conf result (cached, meta) s =
      if not (is_truthy cached) || not (is_fresh now conf.valid_for_min meta)
      then (ok (some result), cache_manager_write result conf s)
      else (ok cached, s)

  -- One call of a function under `frozen_result`, where the function would give `result`.
  unfoldable pub frozen_result : ℕ → CacheConfig → V → Action State CacheError (Option V)
  unfolding cache_manager_read cache_manager_write
  frozen_result now conf result s = elim (cache_manager_read conf s) [
    | ok r ↦ answer now conf result r s
    | err e ↦ (err e, s)
  ]
