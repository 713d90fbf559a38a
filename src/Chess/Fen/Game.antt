-- ===== src/Chess/Fen/Game.antt =====
-- A game's positions go through FEN: SubmitMove of services/game-service/internal/server/server.go
-- stores the FEN of each position and parses it again for the next move.
use alekhines_counter_gambit.Base.{arith, ◌+◌, ◌<◌, ◌≡◌, ◌≤◌}
use alekhines_counter_gambit.Base.Decimal.{max_int}
use alekhines_counter_gambit.Base.Result.{Result, err, ok}
use alekhines_counter_gambit.Base.Text.{Bytes}
use alekhines_counter_gambit.Chess.Apply.{apply_move_unchecked, full_move_after, half_move_after}
use alekhines_counter_gambit.Chess.Apply.Letters.{squares_after-HasLetter}
use alekhines_counter_gambit.Chess.Apply.WellFormed.{apply_move_unchecked-IsWellFormed}
use alekhines_counter_gambit.Chess.Board.{Board}
use alekhines_counter_gambit.Chess.Fen.Parse.{parse_fen}
use alekhines_counter_gambit.Chess.Fen.Print.{fen}
use alekhines_counter_gambit.Chess.Fen.RoundTrip.{IsPrintable, parse_fen-fen}
use alekhines_counter_gambit.Chess.Legal.{apply_parsed, apply_uci}
use alekhines_counter_gambit.Chess.Legal.Laws.{apply_move_ok}
use alekhines_counter_gambit.Chess.Move.{Move, MoveError, parse_uci_move}
use alekhines_counter_gambit.Chess.Piece.{Color, black, white}

apply_move_unchecked-IsPrintable :
    (b : Board) (m : Move)
    → IsPrintable b
    → m.from < 64
    → m.to < 64
    → b.half_move < max_int
    → b.full_move < max_int
    → IsPrintable (apply_move_unchecked b m)
unfolding apply_move_unchecked half_move_after
apply_move_unchecked-IsPrintable b m p hf ht hh hm = record {
  well_formed = apply_move_unchecked-IsWellFormed b m hf ht p.well_formed;
  letters = squares_after-HasLetter b m p.letters;
  half_fits = ground arith;
  full_pos = full_pos_after b.turn;
  full_fits = full_fits_after b.turn;
}
  where
    full_pos_after : (c : Color) → 1 ≤ full_move_after c b.full_move
    full_pos_after white = p.full_pos
    full_pos_after black = omega arith

    full_fits_after : (c : Color) → full_move_after c b.full_move ≤ max_int
    full_fits_after white = p.full_fits
    full_fits_after black = omega arith

-- What an accepted move leaves: a position that can be spelled, with clocks that moved by one at most.
pub record IsNext (b nb : Board) : Type 0 where
  pub printable : IsPrintable nb
  pub half : nb.half_move ≤ b.half_move + 1
  pub full : nb.full_move ≤ b.full_move + 1

apply_move_unchecked-clocks :
    (b : Board) (m : Move)
    → ((apply_move_unchecked b m).half_move ≤ b.half_move + 1)
      × ((apply_move_unchecked b m).full_move ≤ b.full_move + 1)
unfolding apply_move_unchecked half_move_after
apply_move_unchecked-clocks b m = (ground arith, full_le b.turn)
  where
    full_le : (c : Color) → full_move_after c b.full_move ≤ b.full_move + 1
    full_le white = omega arith
    full_le black = omega arith

pub apply_uci-IsNext :
    (b : Board) (text : Bytes) {nb : Board}
    → IsPrintable b
    → b.half_move < max_int
    → b.full_move < max_int
    → apply_uci b text ≡ ok nb
    → IsNext b nb
unfolding apply_uci
apply_uci-IsNext b text {nb} p hh hm h = go (parse_uci_move text) h
  where
    go : (r : Result MoveError Move) → apply_parsed b r ≡ ok nb → IsNext b nb
    go (ok m) e =
        let (legal, same, _) = apply_move_ok b m p.well_formed e in
        let on = legal.sound in
        let (half, full) = apply_move_unchecked-clocks b m in
        rw same (record {
          printable = apply_move_unchecked-IsPrintable b m p on.from_on_board on.to_on_board hh hm;
          half = half;
          full = full;
        })
    go (err x) e = absurd (ground arith)

-- The FEN that is stored for a position after an accepted move is parsed back to that position, when
-- the position before it can be spelled and its clocks are below the largest int.
pub parse_fen-fen-apply_uci :
    (b : Board) (text : Bytes) {nb : Board}
    → IsPrintable b
    → b.half_move < max_int
    → b.full_move < max_int
    → apply_uci b text ≡ ok nb
    → parse_fen (fen nb) ≡ ok nb
parse_fen-fen-apply_uci b text {nb} p hh hm h =
    parse_fen-fen nb ((apply_uci-IsNext b text p hh hm h).printable)
