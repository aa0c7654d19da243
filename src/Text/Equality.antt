-- ===== src/Text/Equality.antt =====
-- Equality of texts is decided by `teq`, and membership in a list by `member`.
use labfunctions.Prelude.{
  ◌≡◌, ◌≢◌, ◌↔◌, inl, inr, refl, true, false, ◌||◌, List, [], ◌∷◌, ◌++◌, arith, Bool-cases,
}
use labfunctions.Text.Defs.{Text, teq, member}

pub teq_refl : (s : Text) → teq s s ≡ true
unfolding teq
teq_refl [] = refl
teq_refl (c ∷ s) = ground (arith, teq_refl s)

pub eq_of_teq : (s t : Text) → teq s t ≡ true → s ≡ t
unfolding teq
eq_of_teq [] [] h = refl
eq_of_teq [] (d ∷ t) h = cc
eq_of_teq (c ∷ s) [] h = cc
eq_of_teq (c ∷ s) (d ∷ t) h = ground (arith, eq_of_teq s t)

pub teq_iff : (s t : Text) → (teq s t ≡ true) ↔ (s ≡ t)
teq_iff s t = (eq_of_teq s t, λ e. rw e (teq_refl t))

pub teq-false : (s t : Text) → s ≢ t → teq s t ≡ false
teq-false s t h = elim (Bool-cases (teq s t)) [ inl e ↦ absurd (h (eq_of_teq s t e)) | inr e ↦ e ]

pub teq_comm : (s t : Text) → teq s t ≡ teq t s
teq_comm s t = ground (arith, teq_iff s t, teq_iff t s)

-- Two texts with one prefix are equal exactly when their rests are.
pub teq-append_left : (p s t : Text) → teq (p ++ s) (p ++ t) ≡ teq s t
unfolding teq
teq-append_left [] s t = refl
teq-append_left (c ∷ p) s t = ground (arith, teq-append_left p s t)

pub member-append :
    (x : Text) (ys zs : List Text) → member x (ys ++ zs) ≡ (member x ys || member x zs)
unfolding member
member-append x [] zs = refl
member-append x (y ∷ ys) zs = ground (arith, member-append x ys zs)
