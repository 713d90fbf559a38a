-- ===== src/Chess/San/Origin.antt =====
-- The origin that SAN writes tells a move from every other: disambiguation of pkg/chess/san.go.
use alekhines_counter_gambit.Base.{
  Bool, Bool-cases, List, [], arith, false, if◌then◌else◌, inl, inr, refl, true, ℕ, ◌&&◌, ◌+◌, ◌<◌,
  ◌==◌, ◌||◌, ◌∷◌, ◌≡◌,
}
use alekhines_counter_gambit.Base.All.{All, All-both, All-map, cons, nil}
use alekhines_counter_gambit.Base.Text.{Bytes}
use alekhines_counter_gambit.Chess.Board.{Board, file_of, piece_at, rank_of}
use alekhines_counter_gambit.Chess.Legal.{legal_moves}
use alekhines_counter_gambit.Chess.Legal.Laws.{legal_moves-IsLegalMove}
use alekhines_counter_gambit.Chess.Move.{Move, square_name}
use alekhines_counter_gambit.Chess.Piece.{Piece, piece_eq}
use alekhines_counter_gambit.Chess.San.{disambiguation, is_shared, origin_among, rivals_of}
use mathlib.Core.Bool.{not}

-- Whether a square is one that the text names: any square, one on a file, one on a rank, or one.
abbrev pub names_origin : Bytes → ℕ → Bool
names_origin [] s = true
names_origin (c ∷ []) s = c == b'a' + file_of s || c == b'1' + rank_of s
names_origin (c ∷ d ∷ t) s = c == b'a' + file_of s && d == b'1' + rank_of s

shared_or_not :
    (coordinate : ℕ → ℕ) (s : ℕ) (rivals : List ℕ)
    → is_shared coordinate s rivals ≡ false
    → All (λ q. (coordinate q == coordinate s) ≡ false) rivals
unfolding is_shared
shared_or_not coordinate s [] h = nil
shared_or_not coordinate s (q ∷ rivals) h =
    cons (ground arith) (shared_or_not coordinate s rivals (ground arith))

-- What is left of a list when an item is kept only after two tests.
All-kept :
    (P : ℕ → Type 0) (skip keep : Bool) (x : ℕ) (xs : List ℕ)
    → All P (if skip then xs else if keep then x ∷ xs else xs)
    → All P xs × (skip ≡ false → keep ≡ true → P x)
All-kept P true keep x xs h = (h, λ e. cc)
All-kept P false true x xs (cons px h) = (h, λ e f. px)
All-kept P false false x xs h = (h, λ e f. cc)

-- Another move of such a piece to the same square.
abbrev pub is_rival : Board → Move → Move → Bool
is_rival b m lm =
    lm.to == m.to && (not (lm.from == m.from) && piece_eq (piece_at b lm.from) (piece_at b m.from))

rivals_of_complete :
    (b : Board) (m : Move) (test : ℕ → Bool) (lms : List Move)
    → All (λ r. test r ≡ false) (rivals_of b m (piece_at b m.from) lms)
    → All (λ lm. (is_rival b m lm && test lm.from) ≡ false) lms
unfolding rivals_of
rivals_of_complete b m test [] h = nil
rivals_of_complete b m test (lm ∷ lms) h =
    let (rest, found) =
      All-kept (λ r. test r ≡ false) (not (lm.to == m.to) || lm.from == m.from)
        (piece_eq (piece_at b lm.from) (piece_at b m.from)) lm.from
        (rivals_of b m (piece_at b m.from) lms) h in
    cons (ground (arith, found)) (rivals_of_complete b m test lms rest)

rivals_of-other :
    (b : Board) (m : Move) (piece : Piece) (lms : List Move)
    → All (λ lm. lm.from < 64) lms
    → All (λ r. (r < 64) × ((r == m.from) ≡ false)) (rivals_of b m piece lms)
unfolding rivals_of
rivals_of-other b m piece [] nil = nil
rivals_of-other b m piece (lm ∷ lms) (cons l ls) =
    elim (Bool-cases (not (lm.to == m.to) || lm.from == m.from)) [
      | inl e ↦ rw (e, rivals_of) (rivals_of-other b m piece lms ls)
      | inr e ↦ elim (Bool-cases (piece_eq (piece_at b lm.from) piece)) [
        | inl f ↦ rw (e, f, rivals_of) (cons (l, ground arith) (rivals_of-other b m piece lms ls))
        | inr f ↦ rw (e, f, rivals_of) (rivals_of-other b m piece lms ls)
      ]
    ]

origin_among_self : (s : ℕ) (rivals : List ℕ) → names_origin (origin_among s rivals) s ≡ true
unfolding square_name
origin_among_self s [] = refl
origin_among_self s (r ∷ rivals) = elim (Bool-cases (is_shared file_of s (r ∷ rivals))) [
  | inr e ↦ rw e (ground arith)
  | inl e ↦ elim (Bool-cases (is_shared rank_of s (r ∷ rivals))) [
    | inr f ↦ rw (e, f) (ground arith)
    | inl f ↦ rw (e, f) (ground arith)
  ]
]

file_tells :
    (s r : ℕ)
    → s < 64
    → r < 64
    → (file_of r == file_of s) ≡ false
    → names_origin ((b'a' + file_of s) ∷ []) r ≡ false
file_tells s r hs hr h = ground arith

rank_tells :
    (s r : ℕ)
    → s < 64
    → r < 64
    → (rank_of r == rank_of s) ≡ false
    → names_origin ((b'1' + rank_of s) ∷ []) r ≡ false
rank_tells s r hs hr h = ground arith

square_tells : (s r : ℕ) → (r == s) ≡ false → names_origin (square_name s) r ≡ false
unfolding square_name
square_tells s r h = ground arith

origin_among-rivals :
    (s : ℕ) (rivals : List ℕ)
    → s < 64
    → All (λ r. (r < 64) × ((r == s) ≡ false)) rivals
    → All (λ r. names_origin (origin_among s rivals) r ≡ false) rivals
origin_among-rivals s [] hs h = nil
origin_among-rivals s (r ∷ rivals) hs h = elim (Bool-cases (is_shared file_of s (r ∷ rivals))) [
  | inr e ↦ rw e (
      All-map (λ q p. file_tells s q hs p.0.0 p.1)
        (All-both h (shared_or_not file_of s (r ∷ rivals) e)))
  | inl e ↦ elim (Bool-cases (is_shared rank_of s (r ∷ rivals))) [
    | inr f ↦
        rw (e, f)
          (All-map (λ q p. rank_tells s q hs p.0.0 p.1)
            (All-both h (shared_or_not rank_of s (r ∷ rivals) f)))
    | inl f ↦ rw (e, f) (All-map (λ q p. square_tells s q p.1) h)
  ]
]

-- The text that SAN adds for a move from a square of the board names that square, and not the square of
-- any other legal move of such a piece to the same target.
pub disambiguation_unique :
    (b : Board) (m : Move)
    → m.from < 64
    → (names_origin (disambiguation b m (piece_at b m.from)) m.from ≡ true)
      × All
          (λ lm.
            (is_rival b m lm && names_origin (disambiguation b m (piece_at b m.from)) lm.from)
            ≡ false)
          (legal_moves b)
unfolding disambiguation
disambiguation_unique b m h =
    let rivals = rivals_of b m (piece_at b m.from) (legal_moves b) in
    let on = All-map (λ lm l. l.sound.from_on_board) (legal_moves-IsLegalMove b) in
    (
      origin_among_self m.from rivals,
      rivals_of_complete b m (names_origin (origin_among m.from rivals)) (legal_moves b) (
          origin_among-rivals m.from rivals h
            (rivals_of-other b m (piece_at b m.from) (legal_moves b) on)),
    )
