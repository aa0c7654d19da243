-- ===== src/Effects/Sequence.antt =====
-- What is known of the parts of a sequence of actions that succeeds.
use labfunctions.Prelude.{◌≡◌, refl}
use labfunctions.Effects.{Result, ok, err, Action, and_then, ◌>>◌}

module _ {ℓ} {S E A B : Type ℓ} where
  -- The first action succeeds, and the sequence goes on from its state with the second.
  abbrev pub Splits : Result E A × S → (S → Result E B × S) → Result E B × S → B → Type ℓ
  Splits m n all b = (a : A) × (m.0 ≡ ok a) × ((n m.1).0 ≡ ok b) × (all.1 ≡ (n m.1).1)

  split :
      (r : Result E A) (s : S) (n : Action S E B) (b : B)
      → (and_then r (λ _. n) s).0 ≡ ok b
      → Splits (r, s) n (and_then r (λ _. n) s) b
  split (ok a) s n b h = (a, refl, h, refl)
  split (err e) s n b h = cc

  pub then_Splits :
      (m : Action S E A) (n : Action S E B) (s : S) (b : B)
      → ((m >> n) s).0 ≡ ok b
      → Splits (m s) n ((m >> n) s) b
  then_Splits m n s b h = split (m s).0 (m s).1 n b h
