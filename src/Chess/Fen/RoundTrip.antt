-- ===== src/Chess/Fen/RoundTrip.antt =====
-- ParseFEN reads back what FEN prints: pkg/chess/fen.go.
use alekhines_counter_gambit.Base.{
  Bool, Bool-cases, List, Option, [], ap, arith, false, inl, inr, none, refl, some, true, ℕ, ◌++◌,
  ◌∙◌, ◌∷◌, ◌≡◌, ◌≢◌, ◌≤◌,
}
use alekhines_counter_gambit.Base.All.{All}
use alekhines_counter_gambit.Base.Decimal.{itoa, max_int}
use alekhines_counter_gambit.Base.Decimal.RoundTrip.{Above-itoa, atoi-itoa, itoa-ne-nil}
use alekhines_counter_gambit.Base.Result.{ok}
use alekhines_counter_gambit.Base.Text.{Bytes, fields}
use alekhines_counter_gambit.Base.Text.Words.{
  Above, Above-append, Above-le, fields-append, fields_last,
}
use alekhines_counter_gambit.Chess.Board.{Board, Castling, HasLetter, IsWellFormed, OnBoard}
use alekhines_counter_gambit.Chess.Fen.Parse.{
  FenError, bad_full_move, bad_half_move, parse_castling, parse_clock, parse_fen, parse_fields,
  parse_side, parse_target,
}
use alekhines_counter_gambit.Chess.Fen.Print.{
  fen, letter_if, no_rights, rank_pieces, side_letter, write_castling, write_rank, write_ranks,
  write_target,
}
use alekhines_counter_gambit.Chess.Fen.Ranks.{Above-write_ranks, parse_placement-write_ranks}
use alekhines_counter_gambit.Chess.Move.{parse_square, square_name}
use alekhines_counter_gambit.Chess.Piece.{Color, Piece, black, white}

-- A position that a FEN can spell: a whole array of pieces that have a letter, an en-passant target
-- on the board, and clocks that an int holds, the full-move number from 1.
pub record IsPrintable (b : Board) : Type 0 where
  pub well_formed : IsWellFormed b
  pub letters : All HasLetter b.squares
  pub half_fits : b.half_move ≤ max_int
  pub full_pos : 1 ≤ b.full_move
  pub full_fits : b.full_move ≤ max_int

pub parse_side-letter : (c : Color) → parse_side (side_letter c ∷ []) ≡ ok c
unfolding parse_side
parse_side-letter white = refl
parse_side-letter black = refl

abbrev rights : Bool → Bool → Bool → Bool → Castling
rights k q l r = record { white_king = k; white_queen = q; black_king = l; black_queen = r }

parse_rights-write :
    (k q l r : Bool) → parse_castling (write_castling (rights k q l r)) ≡ ok (rights k q l r)
unfolding parse_castling write_castling
parse_rights-write true true true true = refl
parse_rights-write true true true _ = refl
parse_rights-write true true _ true = refl
parse_rights-write true true _ _ = refl
parse_rights-write true _ true true = refl
parse_rights-write true _ true _ = refl
parse_rights-write true _ _ true = refl
parse_rights-write true _ _ _ = refl
parse_rights-write _ true true true = refl
parse_rights-write _ true true _ = refl
parse_rights-write _ true _ true = refl
parse_rights-write _ true _ _ = refl
parse_rights-write _ _ true true = refl
parse_rights-write _ _ true _ = refl
parse_rights-write _ _ _ true = refl
parse_rights-write _ _ _ _ = refl

pub parse_castling-write : (c : Castling) → parse_castling (write_castling c) ≡ ok c
parse_castling-write c = parse_rights-write c.white_king c.white_queen c.black_king c.black_queen

pub parse_target-write : (t : Option ℕ) → OnBoard t → parse_target (write_target t) ≡ ok t
unfolding parse_target parse_square write_target square_name
parse_target-write none h = refl
parse_target-write (some s) h = ground arith

parse_clock-itoa :
    (least : ℕ) (e : FenError) (n : ℕ)
    → least ≤ n
    → n ≤ max_int
    → parse_clock least e (itoa n) ≡ ok n
unfolding parse_clock
parse_clock-itoa least e n hl hm = rw (atoi-itoa n hm) (ground arith)

Above-letter_if : (test : Bool) (c : ℕ) → 33 ≤ c → Above 33 (letter_if test c)
Above-letter_if true c h = (h, tt)
Above-letter_if false c h = tt

pub Above-write_castling : (c : Castling) → Above 33 (write_castling c)
unfolding write_castling
Above-write_castling c = elim (Bool-cases (no_rights c)) [
  | inl e ↦ rw (e, Above) (omega arith, tt)
  | inr e ↦ rw e (
      Above-append 33 (letter_if c.white_king b'K') _
        (Above-letter_if c.white_king b'K' (omega arith))
        (Above-append 33 (letter_if c.white_queen b'Q') _
          (Above-letter_if c.white_queen b'Q' (omega arith))
          (Above-append 33 (letter_if c.black_king b'k') _
            (Above-letter_if c.black_king b'k' (omega arith))
            (Above-letter_if c.black_queen b'q' (omega arith)))))
]

pub write_castling-ne-nil : (c : Castling) → write_castling c ≢ []
unfolding write_castling
write_castling-ne-nil c = ground arith

pub Above-write_target : (t : Option ℕ) → Above 33 (write_target t) × (write_target t ≢ [])
unfolding write_target square_name
Above-write_target none = (omega arith, λ p. cc)
Above-write_target (some s) = (omega arith, λ p. cc)

append-cons-ne-nil : (s : Bytes) (c : ℕ) (t : Bytes) → s ++ c ∷ t ≢ []
append-cons-ne-nil [] c t = λ p. cc
append-cons-ne-nil (d ∷ s) c t = λ p. cc

pub write_ranks-ne-nil : (s : List Piece) → write_ranks s 7 ≢ []
unfolding write_ranks
write_ranks-ne-nil s = append-cons-ne-nil (write_rank (rank_pieces s 7) 0) b'/' (write_ranks s 6)

-- The six fields of a printed position.
abbrev pub fen_fields : Board → List Bytes
fen_fields b =
    write_ranks b.squares 7
    ∷ (side_letter b.turn ∷ [])
    ∷ write_castling b.castling
    ∷ write_target b.en_passant
    ∷ itoa b.half_move
    ∷ itoa b.full_move
    ∷ []

pub side_letter-ge : (c : Color) → 33 ≤ side_letter c
side_letter-ge white = omega arith
side_letter-ge black = omega arith

last_fields :
    (b : Board)
    → fields (
        write_castling b.castling
        ++ 32 ∷ (write_target b.en_passant ++ 32 ∷ (itoa b.half_move ++ 32 ∷ itoa b.full_move)))
      ≡ write_castling b.castling
        ∷ write_target b.en_passant
        ∷ itoa b.half_move
        ∷ itoa b.full_move
        ∷ []
last_fields b =
    let (target_above, target_ne) = Above-write_target b.en_passant in
    let half_above = Above-le 33 b'0' (itoa b.half_move) (omega arith) (Above-itoa b.half_move) in
    let full_above = Above-le 33 b'0' (itoa b.full_move) (omega arith) (Above-itoa b.full_move) in
    fields-append (write_castling b.castling) _ (Above-write_castling b.castling)
      (write_castling-ne-nil b.castling)
    ∙ ap (λ t. write_castling b.castling ∷ t)
        (fields-append (write_target b.en_passant) _ target_above target_ne
          ∙ ap (λ t. write_target b.en_passant ∷ t)
              (fields-append (itoa b.half_move) _ half_above (itoa-ne-nil b.half_move)
                ∙ ap (λ t. itoa b.half_move ∷ t)
                    (fields_last (itoa b.full_move) full_above (itoa-ne-nil b.full_move))))

pub fields-fen : (b : Board) → All HasLetter b.squares → fields (fen b) ≡ fen_fields b
unfolding fen
fields-fen b a =
    fields-append (write_ranks b.squares 7) _ (Above-write_ranks b.squares a 7)
      (write_ranks-ne-nil b.squares)
    ∙ ap (λ t. write_ranks b.squares 7 ∷ t)
        (fields-append (side_letter b.turn ∷ []) _ (side_letter-ge b.turn, tt) (λ p. cc)
          ∙ ap (λ t. (side_letter b.turn ∷ []) ∷ t) (last_fields b))

-- Every position that a FEN can spell is read back from its FEN.
pub parse_fen-fen : (b : Board) → IsPrintable b → parse_fen (fen b) ≡ ok b
unfolding parse_fen parse_fields
parse_fen-fen b h = rw (
  fields-fen b h.letters,
  parse_placement-write_ranks b.squares h.letters h.well_formed.size,
  parse_side-letter b.turn,
  parse_castling-write b.castling,
  parse_target-write b.en_passant h.well_formed.target,
  parse_clock-itoa 0 bad_half_move b.half_move (omega arith) h.half_fits,
  parse_clock-itoa 1 bad_full_move b.full_move h.full_pos h.full_fits,
)
