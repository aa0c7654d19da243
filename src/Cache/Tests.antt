-- ===== src/Cache/Tests.antt =====
-- Runs of the cache.
use labfunctions.Prelude.{◌≡◌, refl, Bool, false, not, [], Option, none, some}
use labfunctions.Text.{Text, codes, is_empty}
use labfunctions.Samples.{quote, unquote, unquote-quote}
use labfunctions.Effects.{ok}
use labfunctions.Cache.{Ctx, CacheConfig, Disk, Outside}

abbrev write_ctx : Ctx → Text
write_ctx ctx = quote ctx.wfid (quote ctx.execid ctx.execution_dt)

abbrev with_ids : Text → Option (Text × Text) → Option Ctx
with_ids w none = none
with_ids w (some (e, dt)) = some (record { wfid = w; execid = e; execution_dt = dt })

abbrev with_rest : Option (Text × Text) → Option Ctx
with_rest none = none
with_rest (some (w, rest)) = with_ids w (unquote rest)

read-write_ctx : (ctx : Ctx) → with_rest (unquote (write_ctx ctx)) ≡ some ctx
read-write_ctx ctx =
    rw (unquote-quote ctx.wfid (quote ctx.execid ctx.execution_dt))
      (rw (unquote-quote ctx.execid ctx.execution_dt))

-- Results that are texts, all of one date, and a file server that keeps nothing.
abbrev texts_only : Outside Text
texts_only = record {
  str = λ t. t;
  truthy = λ t. not (is_empty t);
  dumps = λ t. t;
  loads = ok;
  json_dumps = write_ctx;
  json_loads = λ t. with_rest (unquote t);
  fromisoformat = λ _. 0;
  Remote = Bool;
  write_fileserver = λ _ _ _ r. r;
  restore_fileserver = λ _ _ r. (none, none);
  loads-dumps = λ v. refl;
  json_loads-dumps = read-write_ctx;
}

abbrev conf : CacheConfig
conf = record {
  name = codes "f";
  ctx = record { wfid = codes "w"; execid = codes "e"; execution_dt = codes "2022-01-01" };
  valid_for_min = 60;
  strategy = codes "local";
}

abbrev blank : Disk Bool
blank = record { files = []; remote = false }
