-- ===== src/Chess/Fen/Place.antt =====
-- Writing the pieces of a board into an empty array gives the board back: the placement loops of
-- ParseFEN in pkg/chess/fen.go.
use alekhines_counter_gambit.Base.{
  Bool-cases, List, [], ap, arith, drop, if◌then◌else◌, inl, inr, length, length-append,
  length-drop, length-replicate, length-take, refl, replicate, set, suc, sym, take,
  take-append-drop, true, zero, ℕ, ◌*◌, ◌++◌, ◌+◌, ◌∙◌, ◌∷◌, ◌≡◌, ◌≤◌,
}
use alekhines_counter_gambit.Chess.Fen.Parse.{no_squares}
use alekhines_counter_gambit.Chess.Fen.Print.{rank_pieces}
use alekhines_counter_gambit.Chess.Piece.{Piece, empty, is_empty}
use mathlib.Core.List.{append-nil, append_assoc}
use mathlib.Core.Path.{ap₂}

-- Writes the pieces from square `k` on; empty squares are skipped, as ParseFEN does.
unfoldable pub place : List Piece → ℕ → List Piece → List Piece
place [] k s = s
place (p ∷ ps) k s = place ps (suc k) (if is_empty p then s else set s k p)

set-length {ℓ} :
    {A : Type ℓ} (xs : List A) (x y : A) (ys : List A) (k : ℕ)
    → k ≡ length xs
    → set (xs ++ x ∷ ys) k y ≡ xs ++ y ∷ ys
set-length [] x y ys zero h = refl
set-length [] x y ys (suc k) h = absurd (omega arith)
set-length (z ∷ xs) x y ys zero h = absurd (omega arith)
set-length (z ∷ xs) x y ys (suc k) h = ap (λ t. z ∷ t) (set-length xs x y ys k (omega arith))

pub is_empty-≡ : (p : Piece) → is_empty p ≡ true → empty ≡ p
is_empty-≡ p h = ground arith

write_piece :
    (p : Piece) (xs rest : List Piece) (k : ℕ)
    → k ≡ length xs
    → (if is_empty p then xs ++ empty ∷ rest else set (xs ++ empty ∷ rest) k p) ≡ xs ++ p ∷ rest
write_piece p xs rest k h = elim (Bool-cases (is_empty p)) [
  | inl e ↦ rw e (ap (λ q. xs ++ q ∷ rest) (is_empty-≡ p e))
  | inr e ↦ rw e (set-length xs empty p rest k h)
]

-- Pieces written over as many empty squares.
pub place-replicate :
    (ps xs ys : List Piece) (k : ℕ)
    → k ≡ length xs
    → place ps k (xs ++ (replicate (length ps) empty ++ ys)) ≡ xs ++ (ps ++ ys)
unfolding place
place-replicate [] xs ys k h = refl
place-replicate (p ∷ ps) xs ys k h =
    ap (place ps (suc k)) (write_piece p xs (replicate (length ps) empty ++ ys) k h)
    ∙ (ap (place ps (suc k)) (sym (append_assoc xs (p ∷ []) (replicate (length ps) empty ++ ys)))
        ∙ (place-replicate ps (xs ++ p ∷ []) ys (suc k) (omega (arith, length-append xs (p ∷ [])))
            ∙ append_assoc xs (p ∷ []) (ps ++ ys)))

-- The ranks `r - 1` down to 0, written one after the other.
unfoldable pub place_ranks : List Piece → ℕ → List Piece → List Piece
unfolding place
place_ranks s zero acc = acc
place_ranks s (suc r) acc = place_ranks s r (place (rank_pieces s r) (r * 8) acc)

drop-drop {ℓ} : {A : Type ℓ} (j k m : ℕ) (xs : List A) → m ≡ k + j → drop j (drop k xs) ≡ drop m xs
drop-drop j zero m xs h = let e : j ≡ m = omega arith in rw e
drop-drop zero (suc k) zero [] h = refl
drop-drop (suc j) (suc k) zero [] h = absurd (omega arith)
drop-drop zero (suc k) (suc m) [] h = refl
drop-drop (suc j) (suc k) (suc m) [] h = refl
drop-drop j (suc k) zero (x ∷ xs) h = absurd (omega arith)
drop-drop j (suc k) (suc m) (x ∷ xs) h = drop-drop j k m xs (omega arith)

replicate-add {ℓ} :
    {A : Type ℓ} (j k m : ℕ) (a : A) → m ≡ j + k → replicate m a ≡ replicate j a ++ replicate k a
replicate-add zero k m a h = let e : m ≡ k = omega arith in rw e
replicate-add (suc j) k zero a h = absurd (omega arith)
replicate-add (suc j) k (suc m) a h = ap (λ t. a ∷ t) (replicate-add j k m a (omega arith))

-- The array before the rank that begins at square `k` is written: empty below, full above.
abbrev rest_from : List Piece → ℕ → List Piece
rest_from s k = replicate k empty ++ drop k s

place-rest_from :
    (s : List Piece) (k m : ℕ)
    → m ≡ k + 8
    → m ≤ length s
    → place (take 8 (drop k s)) k (rest_from s m) ≡ rest_from s k
place-rest_from s k m e h =
    let row = take 8 (drop k s) in
    let full : length row ≡ 8 = omega (arith, length-take 8 (drop k s), length-drop k s) in
    let blank = replicate (length row) empty in
    let same : rest_from s m ≡ replicate k empty ++ (blank ++ drop 8 (drop k s)) =
      ap₂ (λ x y. x ++ y) (replicate-add k (length row) m empty (omega arith))
        (sym (drop-drop 8 k m s e))
      ∙ append_assoc (replicate k empty) blank (drop 8 (drop k s)) in
    ap (place row k) same
    ∙ (place-replicate row (replicate k empty) (drop 8 (drop k s)) k
          (sym (length-replicate k empty))
        ∙ ap (λ t. replicate k empty ++ t) (take-append-drop 8 (drop k s)))

place_ranks-rest_from :
    (s : List Piece) (r : ℕ)
    → length s ≡ 64
    → r ≤ 8
    → place_ranks s r (rest_from s (r * 8)) ≡ rest_from s 0
unfolding place_ranks
place_ranks-rest_from s zero h hr = refl
place_ranks-rest_from s (suc r) h hr =
    ap (place_ranks s r) (place-rest_from s (r * 8) (suc r * 8) (omega arith) (omega arith))
    ∙ place_ranks-rest_from s r h (omega arith)

drop-length {ℓ} : {A : Type ℓ} (xs : List A) (n : ℕ) → length xs ≡ n → drop n xs ≡ []
drop-length [] zero h = refl
drop-length [] (suc n) h = refl
drop-length (x ∷ xs) zero h = absurd (omega arith)
drop-length (x ∷ xs) (suc n) h = drop-length xs n (omega arith)

-- All eight ranks written into the empty array give the squares back.
pub place_ranks-no_squares : (s : List Piece) → length s ≡ 64 → place_ranks s 8 no_squares ≡ s
place_ranks-no_squares s h =
    ap (place_ranks s 8)
      (sym (append-nil no_squares) ∙ ap (λ t. no_squares ++ t) (sym (drop-length s 64 h)))
    ∙ place_ranks-rest_from s 8 h (omega arith)
