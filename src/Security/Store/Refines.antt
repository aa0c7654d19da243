-- ===== src/Security/Store/Refines.antt =====
-- The store over Redis implements the interface, whatever Redis is and whatever the namespace.
use labfunctions.Prelude.{ℕ, ◌≡◌, ◌∷◌, Option, none, some, if◌then◌else◌}
use labfunctions.Text.{Text, codes, teq, teq-append_left}
use labfunctions.Redis.{Redis}
use labfunctions.Redis.Memory.{memory}
use labfunctions.Security.Store.{TokenStore, store_key, put, get, delete}

module _ (redis : Redis) (ns : Text) where
  same_key : (k j : Text) → teq (store_key redis ns k) (store_key redis ns j) ≡ teq k j
  unfolding teq
  same_key k j = teq-append_left ns (b':' ∷ k) (b':' ∷ j)

  pub get-put :
      (s : redis.State) (k j v : Text) (ttl : Option ℕ)
      → get redis ns (put redis ns s k v ttl) j ≡ (if teq k j then some v else get redis ns s j)
  unfolding get put
  get-put s k j v ttl = rw (redis.get-set, same_key k j)

  pub get-delete :
      (s : redis.State) (k j : Text)
      → get redis ns (delete redis ns s k) j ≡ (if teq k j then none else get redis ns s j)
  unfolding get delete
  get-delete s k j = rw (redis.get-delete, same_key k j)

  -- `RedisTokenStore(redis, namespace)`
  abbrev pub redis_token_store : TokenStore
  redis_token_store = record {
    State = redis.State;
    put = put redis ns;
    get = get redis ns;
    delete = delete redis ns;
    get-put = get-put;
    get-delete = get-delete;
  }

abbrev pub memory_store : TokenStore
memory_store = redis_token_store memory (codes "rtkn")
