-- ===== src/Dict.antt =====
-- Python's `dict` with text keys: an association list in insertion order, where an assignment to
-- an old key keeps its place.
use labfunctions.Prelude.{
  ◌≡◌, refl, Bool, true, false, ◌||◌, List, [], ◌∷◌, Option, none, some, arith, if◌then◌else◌,
}
use labfunctions.Text.{Text, teq, teq_iff, member}

abbrev pub Dict {ℓ} : Type ℓ → Type ℓ
Dict V = List (Text × V)

module _ {ℓ} {V : Type ℓ} where
  unfoldable pub lookup : Text → Dict V → Option V
  lookup k [] = none
  lookup k ((j, v) ∷ m) = if teq j k then some v else lookup k m

  unfoldable pub insert : Text → V → Dict V → Dict V
  insert k v [] = (k, v) ∷ []
  insert k v ((j, w) ∷ m) = if teq j k then (k, v) ∷ m else (j, w) ∷ insert k v m

  -- `del m[k]`; the caller tests for the missing key, where Python raises `KeyError`.
  unfoldable pub remove : Text → Dict V → Dict V
  remove k [] = []
  remove k ((j, w) ∷ m) = let rest = remove k m in if teq j k then rest else (j, w) ∷ rest

  unfoldable pub keys : Dict V → List Text
  keys [] = []
  keys ((j, w) ∷ m) = j ∷ keys m

  unfoldable pub values : Dict V → List V
  values [] = []
  values ((j, w) ∷ m) = w ∷ values m

  pub lookup-insert :
      (k j : Text) (v : V) (m : Dict V)
      → lookup j (insert k v m) ≡ (if teq k j then some v else lookup j m)
  unfolding lookup insert
  lookup-insert k j v [] = refl
  lookup-insert k j v ((i, w) ∷ m) =
      ground (arith, teq_iff k j, teq_iff i k, teq_iff i j, lookup-insert k j v m)

  pub lookup-remove :
      (k j : Text) (m : Dict V) → lookup j (remove k m) ≡ (if teq k j then none else lookup j m)
  unfolding lookup remove
  lookup-remove k j [] = ground arith
  lookup-remove k j ((i, w) ∷ m) =
      ground (arith, teq_iff k j, teq_iff i k, teq_iff i j, lookup-remove k j m)

  pub member-keys-insert :
      (k j : Text) (v : V) (m : Dict V)
      → member j (keys (insert k v m)) ≡ (teq j k || member j (keys m))
  unfolding keys insert member
  member-keys-insert k j v [] = refl
  member-keys-insert k j v ((i, w) ∷ m) =
      ground (arith, teq_iff i k, teq_iff j i, teq_iff j k, member-keys-insert k j v m)

  -- `k in m` agrees with `m.get(k) is not None`.
  abbrev pub found : Option V → Bool
  found none = false
  found (some v) = true

  pub member-keys : (k : Text) (m : Dict V) → member k (keys m) ≡ found (lookup k m)
  unfolding keys lookup member
  member-keys k [] = refl
  member-keys k ((i, w) ∷ m) = ground (arith, teq_iff i k, teq_iff k i, member-keys k m)
