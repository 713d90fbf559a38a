-- ===== src/Openingbook/Book/Walk.antt =====
-- What Build counts along the opening lines: Build of pkg/openingbook/book.go.
use alekhines_counter_gambit.Base.{
  &&-left, &&-right, Bool-cases, List, [], ap, arith, if◌then◌else◌, inl, inr, true, ℕ, ◌+◌, ◌∷◌,
  ◌≡◌,
}
use alekhines_counter_gambit.Base.Result.{both_ok, err, ok, ok-injective}
use alekhines_counter_gambit.Base.Text.{Bytes, bytes_eq}
use alekhines_counter_gambit.Base.Text.Words.{bytes_eq-≡, bytes_eq_refl}
use alekhines_counter_gambit.Chess.Board.{Board}
use alekhines_counter_gambit.Chess.Fen.Print.{fen}
use alekhines_counter_gambit.Chess.Legal.{apply_uci}
use alekhines_counter_gambit.Openingbook.Book.{
  Counts, count_play, pair_eq, position_key, walk_line, walk_lines,
}

-- `counts[key][uci]`
pub weight_of : Bytes × Bytes → Counts → ℕ
weight_of p [] = 0
weight_of p ((q, n) ∷ counts) = if pair_eq q p then n else weight_of p counts

pair_eq-≡ : (p q : Bytes × Bytes) → pair_eq p q ≡ true → p ≡ q
unfolding pair_eq
pair_eq-≡ (k, u) (j, v) h =
    let e : k ≡ j = bytes_eq-≡ k j (&&-left (bytes_eq k j) (bytes_eq u v) h) in
    let f : u ≡ v = bytes_eq-≡ u v (&&-right (bytes_eq k j) (bytes_eq u v) h) in cc

pair_eq_refl : (p : Bytes × Bytes) → pair_eq p p ≡ true
unfolding pair_eq
pair_eq_refl (k, u) = rw (bytes_eq_refl k, bytes_eq_refl u)

weight_of-count_play :
    (p q : Bytes × Bytes) (counts : Counts)
    → weight_of q (count_play p counts) ≡ (if pair_eq p q then 1 else 0) + weight_of q counts
unfolding weight_of count_play
weight_of-count_play p q [] = ground arith
weight_of-count_play p q ((r, n) ∷ counts) = elim (Bool-cases (pair_eq r p)) [
  | inl e ↦ ground (arith, ap (λ x. pair_eq x q) (pair_eq-≡ r p e))
  | inr e ↦
      ground (arith, weight_of-count_play p q counts, pair_eq-≡ r q, pair_eq-≡ p q, pair_eq_refl q)
]

-- How many times a line plays the move `p.1` in a position with the key `p.0`.
pub plays : Bytes × Bytes → Board → List Bytes → ℕ
plays p b [] = 0
plays p b (uci ∷ line) =
    (if pair_eq (position_key (fen b), uci) p then 1 else 0)
    + elim (apply_uci b uci) [ ok next ↦ plays p next line | err e ↦ 0 ]

pub plays_all : Bytes × Bytes → Board → List (List Bytes) → ℕ
plays_all p start [] = 0
plays_all p start (line ∷ book) = plays p start line + plays_all p start book

walk_line-weight_of :
    (p : Bytes × Bytes) (b : Board) (line : List Bytes) (counts : Counts) {after : Counts}
    → walk_line b line counts ≡ ok after
    → weight_of p after ≡ weight_of p counts + plays p b line
unfolding walk_line plays
walk_line-weight_of p b [] counts h = omega (arith, ap (weight_of p) (ok-injective _ _ h))
walk_line-weight_of p b (uci ∷ line) counts {after} h =
    let entry_here : Bytes × Bytes = (position_key (fen b), uci) in
    let (next, e, rest) =
      both_ok (apply_uci b uci) (λ c. walk_line c line (count_play entry_here counts)) h in
    rw e (
      omega (
        arith,
        walk_line-weight_of p next line (count_play entry_here counts) rest,
        weight_of-count_play entry_here p counts,
      ))

walk_lines-weight_of_from :
    (p : Bytes × Bytes) (start : Board) (book : List (List Bytes)) (counts : Counts)
    {after : Counts}
    → walk_lines start book counts ≡ ok after
    → weight_of p after ≡ weight_of p counts + plays_all p start book
unfolding walk_lines plays_all
walk_lines-weight_of_from p start [] counts h = omega (arith, ap (weight_of p) (ok-injective _ _ h))
walk_lines-weight_of_from p start (line ∷ book) counts {after} h =
    let (middle, e, rest) =
      both_ok (walk_line start line counts) (λ c. walk_lines start book c) h in
    omega (
      arith,
      walk_line-weight_of p start line counts e,
      walk_lines-weight_of_from p start book middle rest,
    )

-- When every opening line is legal, the weight of a move in a position of the book is the number of
-- times that the lines play it there.
pub walk_lines-weight_of :
    (p : Bytes × Bytes) (start : Board) (book : List (List Bytes)) {after : Counts}
    → walk_lines start book [] ≡ ok after
    → weight_of p after ≡ plays_all p start book
unfolding weight_of
walk_lines-weight_of p start book h = omega (arith, walk_lines-weight_of_from p start book [] h)
