-- ===== src/Stores/Chunks/Whole.antt =====
-- What the pieces that are read make up, and how large they are.
use labfunctions.Prelude.{
  ℕ, zero, suc, ◌≡◌, refl, ap, ◌+◌, Bool, true, ◌&&◌, not, List, [], ◌∷◌, ◌++◌, Option, some, ◌≤◌,
  ◌<◌, leb, arith,
}
use labfunctions.Text.{length, is_empty, all}
use labfunctions.Stores.Chunks.{
  Bytes, in_front, take, drop, read_loop, binary_file_reader, file_lines, concat,
}

take-drop : (n : ℕ) (b : Bytes) → take n b ++ drop n b ≡ b
unfolding take drop
take-drop zero b = refl
take-drop (suc n) [] = refl
take-drop (suc n) (c ∷ b) = ap (λ r. c ∷ r) (take-drop n b)

length-take-le : (n : ℕ) (b : Bytes) → length (take n b) ≤ n
unfolding take
length-take-le zero b = ground arith
length-take-le (suc n) [] = ground arith
length-take-le (suc n) (c ∷ b) = ground (arith, length-take-le n b)

length-drop-le : (n : ℕ) (b : Bytes) → length (drop n b) ≤ length b
unfolding drop
length-drop-le zero b = ground arith
length-drop-le (suc n) [] = ground arith
length-drop-le (suc n) (c ∷ b) = ground (arith, length-drop-le n b)

-- A piece that is handed on is not empty and not longer than asked for.
abbrev pub is_piece : ℕ → Bytes → Bool
is_piece size c = not (is_empty c) && leb (length c) size

-- The loop ends, and its pieces make up the file.
abbrev pub Covers : ℕ → Bytes → Option (List Bytes) → Type 0
Covers size b o =
    (cs : List Bytes) × (o ≡ some cs) × (concat cs ≡ b) × (all (is_piece size) cs ≡ true)

read_loop-Covers :
    (fuel n : ℕ) (b : Bytes) → length b < fuel → Covers (suc n) b (read_loop fuel (suc n) b)
unfolding read_loop concat take drop
read_loop-Covers zero n b h = ground arith
read_loop-Covers (suc fuel) n [] h = ([], refl, refl, refl)
read_loop-Covers (suc fuel) n (c ∷ b) h =
    let (cs, e, whole, pieces) =
      read_loop-Covers fuel n (drop n b) (ground (arith, length-drop-le n b)) in
    (
      (c ∷ take n b) ∷ cs,
      rw e,
      rw whole (ap (λ r. c ∷ r) (take-drop n b)),
      ground (arith, pieces, length-take-le n b),
    )

-- Reading a file by pieces of a positive size ends, the pieces put together are the file, and each
-- piece has at least one byte and at most the size asked for.
pub binary_file_reader-Covers :
    (size : ℕ) (b : Bytes) → 0 < size → Covers size b (binary_file_reader size b)
unfolding binary_file_reader
binary_file_reader-Covers zero b h = ground arith
binary_file_reader-Covers (suc n) b h = read_loop-Covers (length b + 1) n b (ground arith)

concat-in_front : (c : ℕ) (ls : List Bytes) → concat (in_front c ls) ≡ c ∷ concat ls
unfolding concat
concat-in_front c [] = refl
concat-in_front c (l ∷ ls) = refl

-- The lines of a file put together are the file.
pub concat-file_lines : (b : Bytes) → concat (file_lines b) ≡ b
unfolding concat file_lines
concat-file_lines [] = refl
concat-file_lines (c ∷ b) = ground (arith, concat-in_front c (file_lines b), concat-file_lines b)
