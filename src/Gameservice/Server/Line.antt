-- ===== src/Gameservice/Server/Line.antt =====
-- The moves that are stored for a game replay to its position: AppendMove of pkg/store/store.go as
-- SubmitMove of services/game-service/internal/server/server.go calls it.
use alekhines_counter_gambit.Base.{
  List, [], arith, length, length-append, map, refl, sym, ◌++◌, ◌+◌, ◌<◌, ◌∷◌, ◌≡◌, ◌≤◌,
}
use alekhines_counter_gambit.Base.Decimal.{max_int}
use alekhines_counter_gambit.Base.Result.{both_ok, err, ok, ok-injective}
use alekhines_counter_gambit.Base.Text.{Bytes}
use alekhines_counter_gambit.Chess.Board.{Board}
use alekhines_counter_gambit.Chess.Fen.Game.{apply_uci-IsNext}
use alekhines_counter_gambit.Chess.Fen.Parse.{new_board, start_fen}
use alekhines_counter_gambit.Chess.Fen.Print.{fen}
use alekhines_counter_gambit.Chess.Fen.RoundTrip.{IsPrintable}
use alekhines_counter_gambit.Chess.Fen.Sound.{parse_fen-IsPrintable}
use alekhines_counter_gambit.Chess.Legal.{apply_uci}
use alekhines_counter_gambit.Chess.Pgn.Replay.{replay}
use alekhines_counter_gambit.Chess.Tests.{start_board, start_parses}
use alekhines_counter_gambit.Store.{StoredMove}
use alekhines_counter_gambit.Store.Tables.{Numbered, Numbered-append}
use mathlib.Core.List.{map-append}

abbrev pub ucis_of : List StoredMove → List Bytes
ucis_of ms = map (λ m. m.uci) ms

-- The FENs of the positions that a line of moves reaches.
unfoldable pub trail : Board → List Bytes → List Bytes
trail b [] = []
trail b (uci ∷ ucis) = elim (apply_uci b uci) [ ok nb ↦ fen nb ∷ trail nb ucis | err e ↦ [] ]

-- The moves are numbered from 1, are legal one after the other from the start position, and each
-- has the FEN of the position after it. The clocks count no more than the moves.
pub record IsLine (ms : List StoredMove) : Type 0 where
  pub board : Board
  pub numbered : Numbered 1 ms
  pub replayed : replay start_board (ucis_of ms) ≡ ok board
  pub fens : map (λ m. m.fen_after) ms ≡ trail start_board (ucis_of ms)
  pub printable : IsPrintable board
  pub half : board.half_move ≤ length ms
  pub full : board.full_move ≤ length ms + 1

replay-append :
    (b : Board) (ucis : List Bytes) (uci : Bytes) {c d : Board}
    → replay b ucis ≡ ok c
    → apply_uci c uci ≡ ok d
    → replay b (ucis ++ uci ∷ []) ≡ ok d
unfolding replay
replay-append b [] uci {c} {d} h e = rw (ok-injective b c h) (rw e refl)
replay-append b (u ∷ ucis) uci h e =
    let (nb, eu, rest) = both_ok (apply_uci b u) (λ n. replay n ucis) h in
    rw eu (replay-append nb ucis uci rest e)

trail-append :
    (b : Board) (ucis : List Bytes) (uci : Bytes) {c d : Board}
    → replay b ucis ≡ ok c
    → apply_uci c uci ≡ ok d
    → trail b (ucis ++ uci ∷ []) ≡ trail b ucis ++ fen d ∷ []
unfolding replay trail
trail-append b [] uci {c} {d} h e = rw (ok-injective b c h) (rw (e, trail) refl)
trail-append b (u ∷ ucis) uci h e =
    let (nb, eu, rest) = both_ok (apply_uci b u) (λ n. replay n ucis) h in
    rw (eu, trail) (rw (trail-append nb ucis uci rest e) refl)

abbrev pub next_move : List StoredMove → Bytes → Board → StoredMove
next_move ms uci after = record { ply = length ms + 1; uci = uci; fen_after = fen after }

pub IsLine-append :
    (ms : List StoredMove) (uci : Bytes) (after : Board) (l : IsLine ms)
    → length ms + 1 < max_int
    → apply_uci l.board uci ≡ ok after
    → (k : IsLine (ms ++ next_move ms uci after ∷ [])) × (k.board ≡ after)
IsLine-append ms uci after l small e =
    let n =
      apply_uci-IsNext l.board uci l.printable (omega (arith, l.half)) (omega (arith, l.full)) e in
    let m = next_move ms uci after in
    (
      record {
        board = after;
        numbered = Numbered-append 1 ms m l.numbered (omega arith);
        replayed =
            rw (map-append (λ x. x.uci) ms (m ∷ []))
              (replay-append start_board (ucis_of ms) uci l.replayed e);
        fens =
            rw (map-append (λ x. x.uci) ms (m ∷ []), map-append (λ x. x.fen_after) ms (m ∷ []))
              (rw l.fens (sym (trail-append start_board (ucis_of ms) uci l.replayed e)));
        printable = n.printable;
        half = omega (arith, n.half, l.half, length-append ms (m ∷ []));
        full = omega (arith, n.full, l.full, length-append ms (m ∷ []));
      },
      refl,
    )

-- The line of a new game.
unfoldable pub IsLine-nil : IsLine []
unfolding replay trail new_board
IsLine-nil = record {
  board = start_board;
  numbered = tt;
  replayed = refl;
  fens = refl;
  printable = parse_fen-IsPrintable start_fen start_parses;
  half = omega arith;
  full = omega arith;
}

pub start_board_fen : start_fen ≡ fen IsLine-nil.board
unfolding fen new_board IsLine-nil
start_board_fen = refl
