-- ===== src/Security/Store.antt =====
-- labfunctions/security/redis_tokens.py: the store of the refresh tokens over Redis, and the
-- interface of labfunctions/security/base.py that it implements, `TokenStoreSpec`.
pub mod Refines
use labfunctions.Prelude.{ℕ, ◌≡◌, List, ◌∷◌, ◌++◌, Option, none, some, if◌then◌else◌}
use labfunctions.Text.{Text, codes, teq}
use labfunctions.Redis.{Redis}

-- `TokenStoreSpec`, with what the authentication relies on as laws.
pub record TokenStore : Type 1 where
  pub State : Type 0
  pub put : State → Text → Text → Option ℕ → State
  pub get : State → Text → Option Text
  pub delete : State → Text → State
  pub get-put :
      (s : State) (k j v : Text) (ttl : Option ℕ)
      → get (put s k v ttl) j ≡ (if teq k j then some v else get s j)
  pub get-delete :
      (s : State) (k j : Text) → get (delete s k) j ≡ (if teq k j then none else get s j)

module _ (redis : Redis) where
  -- f"{self.ns}:{key}"
  abbrev pub store_key : Text → Text → Text
  store_key ns key = ns ++ b':' ∷ key

  -- The `ttl` is accepted and not handed to Redis, as in the source.
  unfoldable pub put : Text → redis.State → Text → Text → Option ℕ → redis.State
  put ns s key value ttl = redis.set s (store_key ns key) value

  unfoldable pub get : Text → redis.State → Text → Option Text
  get ns s key = redis.get s (store_key ns key)

  unfoldable pub delete : Text → redis.State → Text → redis.State
  delete ns s key = redis.delete s (store_key ns key)
