-- ===== src/Cache/Local.antt =====
-- `frozen_result` with the strategy "local".
use labfunctions.Prelude.{ℕ, ◌≡◌, false, ◌++◌, ◌∷◌, none, some, arith}
use labfunctions.Text.{Text, codes, teq, teq_iff, teq_refl, teq-append_left, is_empty}
use labfunctions.Dict.{lookup, insert, lookup-insert}
use labfunctions.Effects.{ok, err}
use labfunctions.Cache.{
  Ctx, CacheConfig, type_error, Disk, Outside, fpath, metapath, write_pickle, restore_pickle,
  cache_manager_read, cache_manager_write, frozen_result,
}

module _ {V : Type 0} (out : Outside V) where
  -- The local strategy, for a named workflow.
  abbrev pub IsLocal : CacheConfig → Type 0
  IsLocal conf = (conf.strategy ≡ codes "local") × (is_empty conf.ctx.wfid ≡ false)

  -- Where no result is kept yet, the call raises `TypeError` and changes nothing: the function is
  -- not run, so no result is ever kept.
  pub frozen_result-miss :
      (now : ℕ) (conf : CacheConfig) (result : V) (s : Disk out.Remote)
      → IsLocal conf
      → lookup (fpath out conf.name conf.ctx) s.files ≡ none
      → frozen_result out now conf result s ≡ (err type_error, s)
  unfolding frozen_result restore_pickle
  frozen_result-miss now conf result s here missing =
      ground (arith, teq_iff conf.strategy (codes "local"))

  paths_differ :
      (name : Text) (ctx : Ctx) → teq (metapath out name ctx) (fpath out name ctx) ≡ false
  unfolding teq
  paths_differ name ctx = rw (
    teq-append_left ctx.wfid (b'.' ∷ (ctx.execid ++ b'.' ∷ (name ++ codes ".json")))
        (b'.' ∷ (ctx.execid ++ b'.' ∷ (name ++ codes ".pickle"))),
    teq-append_left ctx.execid (b'.' ∷ (name ++ codes ".json")) (b'.' ∷ (name ++ codes ".pickle")),
    teq-append_left name (codes ".json") (codes ".pickle"),
  )

  -- A read after a write gives the text of the metadata in place of the result that was written.
  pub read-write_local :
      (conf : CacheConfig) (v : V) (s : Disk out.Remote)
      → IsLocal conf
      → cache_manager_read out conf (cache_manager_write out v conf s)
        ≡ ok (some (out.str (out.json_dumps conf.ctx)), some conf.ctx)
  unfolding cache_manager_read cache_manager_write restore_pickle write_pickle
  read-write_local conf v s here =
      let meta = metapath out conf.name conf.ctx in
      let file = fpath out conf.name conf.ctx in
      ground (
        arith,
        teq_iff conf.strategy (codes "local"),
        lookup-insert meta file (out.json_dumps conf.ctx) (insert file (out.dumps v) s.files),
        lookup-insert meta meta (out.json_dumps conf.ctx) (insert file (out.dumps v) s.files),
        lookup-insert file file (out.dumps v) s.files,
        paths_differ conf.name conf.ctx,
        teq_refl file,
        teq_refl meta,
        out.loads-dumps v,
        out.json_loads-dumps conf.ctx,
      )
