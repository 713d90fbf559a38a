-- ===== src/Chess/Fen/Key.antt =====
-- The repetition key of a position's FEN: repetitionKey of pkg/chess/outcome.go on FEN of
-- pkg/chess/fen.go.
use alekhines_counter_gambit.Base.{[], ap, arith, refl, suc, sym, ℕ, ◌++◌, ◌<◌, ◌↔◌, ◌∙◌, ◌∷◌, ◌≡◌}
use alekhines_counter_gambit.Base.All.{All}
use alekhines_counter_gambit.Base.Decimal.{itoa}
use alekhines_counter_gambit.Base.Result.{ok-injective}
use alekhines_counter_gambit.Base.Text.{Bytes, fields}
use alekhines_counter_gambit.Base.Text.Words.{Above, fields-append, fields_last}
use alekhines_counter_gambit.Chess.Board.{Board, HasLetter}
use alekhines_counter_gambit.Chess.Fen.Parse.{
  parse_castling, parse_placement, parse_side, parse_target,
}
use alekhines_counter_gambit.Chess.Fen.Print.{
  fen, side_letter, write_castling, write_ranks, write_target,
}
use alekhines_counter_gambit.Chess.Fen.Ranks.{Above-write_ranks, parse_placement-write_ranks}
use alekhines_counter_gambit.Chess.Fen.RoundTrip.{
  Above-write_castling, Above-write_target, IsPrintable, parse_castling-write, parse_side-letter,
  parse_target-write, side_letter-ge, write_castling-ne-nil, write_ranks-ne-nil,
}
use alekhines_counter_gambit.Chess.Outcome.{repetition_key, repetition_key_from}

repetition_key_from-append :
    (n : ℕ) (p rest : Bytes)
    → Above 33 p
    → n < 3
    → repetition_key_from n (p ++ 32 ∷ rest) ≡ p ++ 32 ∷ repetition_key_from (suc n) rest
unfolding repetition_key_from
repetition_key_from-append n [] rest h hn = ground arith
repetition_key_from-append n (c ∷ p) rest (hc, hp) hn =
    ground (arith, repetition_key_from-append n p rest hp hn)

repetition_key_from_end : (p rest : Bytes) → Above 33 p → repetition_key_from 3 (p ++ 32 ∷ rest) ≡ p
unfolding repetition_key_from
repetition_key_from_end [] rest h = refl
repetition_key_from_end (c ∷ p) rest (hc, hp) = ground (arith, repetition_key_from_end p rest hp)

-- The first four fields.
abbrev pub position_text : Board → Bytes
position_text b =
    write_ranks b.squares 7
    ++ 32
      ∷ (side_letter b.turn ∷ 32 ∷ (write_castling b.castling ++ 32 ∷ write_target b.en_passant))

pub repetition_key-fen :
    (b : Board) → All HasLetter b.squares → repetition_key (fen b) ≡ position_text b
unfolding repetition_key fen
repetition_key-fen b a =
    let clocks = itoa b.half_move ++ 32 ∷ itoa b.full_move in
    let after_castling = write_target b.en_passant ++ 32 ∷ clocks in
    let after_turn = write_castling b.castling ++ 32 ∷ after_castling in
    repetition_key_from-append 0 (write_ranks b.squares 7) _ (Above-write_ranks b.squares a 7)
      (omega arith)
    ∙ ap (λ t. write_ranks b.squares 7 ++ 32 ∷ t)
        (repetition_key_from-append 1 (side_letter b.turn ∷ []) after_turn
            (side_letter-ge b.turn, tt) (omega arith)
          ∙ ap (λ t. side_letter b.turn ∷ 32 ∷ t)
              (repetition_key_from-append 2 (write_castling b.castling) after_castling
                  (Above-write_castling b.castling) (omega arith)
                ∙ ap (λ t. write_castling b.castling ++ 32 ∷ t)
                    (repetition_key_from_end (write_target b.en_passant) clocks
                      (Above-write_target b.en_passant).0)))

fields-position_text :
    (b : Board)
    → All HasLetter b.squares
    → fields (position_text b)
      ≡ write_ranks b.squares 7
        ∷ (side_letter b.turn ∷ [])
        ∷ write_castling b.castling
        ∷ write_target b.en_passant
        ∷ []
fields-position_text b a =
    fields-append (write_ranks b.squares 7) _ (Above-write_ranks b.squares a 7)
      (write_ranks-ne-nil b.squares)
    ∙ ap (λ t. write_ranks b.squares 7 ∷ t)
        (fields-append (side_letter b.turn ∷ []) _ (side_letter-ge b.turn, tt) (λ p. cc)
          ∙ ap (λ t. (side_letter b.turn ∷ []) ∷ t)
              (fields-append (write_castling b.castling) _ (Above-write_castling b.castling)
                  (write_castling-ne-nil b.castling)
                ∙ ap (λ t. write_castling b.castling ∷ t)
                    (fields_last (write_target b.en_passant) (Above-write_target b.en_passant).0
                      (Above-write_target b.en_passant).1)))

-- Two positions are the same but for their clocks.
pub record SamePosition (b c : Board) : Type 0 where
  pub squares : b.squares ≡ c.squares
  pub turn : b.turn ≡ c.turn
  pub castling : b.castling ≡ c.castling
  pub en_passant : b.en_passant ≡ c.en_passant

key-words :
    (b c : Board)
    → IsPrintable b
    → IsPrintable c
    → repetition_key (fen b) ≡ repetition_key (fen c)
    → (write_ranks b.squares 7 ≡ write_ranks c.squares 7)
      × (side_letter b.turn ≡ side_letter c.turn)
      × (write_castling b.castling ≡ write_castling c.castling)
      × (write_target b.en_passant ≡ write_target c.en_passant)
key-words b c hb hc h =
    let same =
      sym (fields-position_text b hb.letters)
      ∙ (ap fields (sym (repetition_key-fen b hb.letters) ∙ (h ∙ repetition_key-fen c hc.letters))
          ∙ fields-position_text c hc.letters) in
    (cc, cc, cc, cc)

-- For two positions that FEN can write (64 squares of known letters, a target on the board, clocks
-- that an int holds and a full-move number of at least one), the repetition keys of their FENs are the
-- same exactly when the positions agree in the pieces, the side to move, the castling rights and the
-- en-passant target; their clocks may differ within these bounds.
pub repetition_key-fen_iff :
    (b c : Board)
    → IsPrintable b
    → IsPrintable c
    → (repetition_key (fen b) ≡ repetition_key (fen c)) ↔ SamePosition b c
repetition_key-fen_iff b c hb hc = (same_position, same_key)
  where
    same_position : repetition_key (fen b) ≡ repetition_key (fen c) → SamePosition b c
    same_position h =
        let (ew, es, ec, et) = key-words b c hb hc h in
        record {
          squares = ok-injective _ _ (
              sym (parse_placement-write_ranks b.squares hb.letters hb.well_formed.size)
              ∙ (ap parse_placement ew
                  ∙ parse_placement-write_ranks c.squares hc.letters hc.well_formed.size));
          turn = ok-injective _ _ (
              sym (parse_side-letter b.turn)
              ∙ (ap (λ t. parse_side (t ∷ [])) es ∙ parse_side-letter c.turn));
          castling = ok-injective _ _ (
              sym (parse_castling-write b.castling)
              ∙ (ap parse_castling ec ∙ parse_castling-write c.castling));
          en_passant = ok-injective _ _ (
              sym (parse_target-write b.en_passant hb.well_formed.target)
              ∙ (ap parse_target et ∙ parse_target-write c.en_passant hc.well_formed.target));
        }

    same_key : SamePosition b c → repetition_key (fen b) ≡ repetition_key (fen c)
    same_key s =
        repetition_key-fen b hb.letters
        ∙ (cc (s.squares, s.turn, s.castling, s.en_passant) ∙ sym (repetition_key-fen c hc.letters))
