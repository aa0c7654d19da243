-- ===== src/Redis.antt =====
-- The part of Redis that the program calls, as an interface: string keys (GET, SET, DEL) and set
-- keys (SADD, SREM, and SINTER of one key). Redis is no part of the repository; the laws are the
-- documented behaviour of the commands. A key holds a string or a set, so the laws of the set
-- commands ask that no string stands at the key, and SET changes what SINTER gives at its own key
-- only. The order of SINTER is not fixed: the laws speak of membership.
pub mod Memory
use labfunctions.Prelude.{
  ◌≡◌, ◌≢◌, Bool, true, false, not, ◌&&◌, ◌||◌, List, Option, none, some, if◌then◌else◌,
}
use labfunctions.Text.{Text, teq, member}

pub record Redis : Type 1 where
  pub State : Type 0
  pub get : State → Text → Option Text
  pub set : State → Text → Text → State
  pub delete : State → Text → State
  pub sadd : State → Text → Text → State
  pub srem : State → Text → Text → State
  pub sinter : State → Text → List Text
  pub get-set :
      (s : State) (k j v : Text) → get (set s k v) j ≡ (if teq k j then some v else get s j)
  pub get-delete :
      (s : State) (k j : Text) → get (delete s k) j ≡ (if teq k j then none else get s j)
  pub get-sadd : (s : State) (k j m : Text) → get (sadd s k m) j ≡ get s j
  pub get-srem : (s : State) (k j m : Text) → get (srem s k m) j ≡ get s j
  pub sinter-set : (s : State) (k j v : Text) → k ≢ j → sinter (set s k v) j ≡ sinter s j
  pub sinter-delete : (s : State) (k j : Text) → k ≢ j → sinter (delete s k) j ≡ sinter s j
  pub sinter-sadd :
      (s : State) (k j m x : Text)
      → get s k ≡ none
      → member x (sinter (sadd s k m) j) ≡ (teq k j && teq x m || member x (sinter s j))
  pub sinter-srem :
      (s : State) (k j m x : Text)
      → get s k ≡ none
      → member x (sinter (srem s k m) j) ≡ (not (teq k j && teq x m) && member x (sinter s j))
