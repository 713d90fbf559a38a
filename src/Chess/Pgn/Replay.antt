-- ===== src/Chess/Pgn/Replay.antt =====
-- A PGN document is written exactly for a game that can be replayed: PGN of pkg/chess/san.go.
use alekhines_counter_gambit.Base.{Bool, List, [], false, refl, true, ◌++◌, ◌∙◌, ◌∷◌, ◌≡◌}
use alekhines_counter_gambit.Base.Result.{Result, err, ok, ◌>>=◌}
use alekhines_counter_gambit.Base.Text.{Bytes, StringMap}
use alekhines_counter_gambit.Chess.Board.{Board}
use alekhines_counter_gambit.Chess.Fen.Parse.{parse_fen}
use alekhines_counter_gambit.Chess.Legal.{ChessError, apply_move, apply_parsed, apply_uci}
use alekhines_counter_gambit.Chess.Move.{Move, MoveError, parse_uci_move}
use alekhines_counter_gambit.Chess.Pgn.{
  PgnError, move_number, move_text, pgn, unplayable, unreadable, wrap_error,
}
use alekhines_counter_gambit.Chess.San.{san}

-- The position after the moves, played as the game service plays them.
unfoldable pub replay : Board → List Bytes → Result ChessError Board
unfolding apply_uci
replay b [] = ok b
replay b (uci ∷ ucis) = do next ← apply_uci b uci; replay next ucis

abbrev pub is_ok : {E A : Type 0} → Result E A → Bool
is_ok (ok a) = true
is_ok (err e) = false

-- One move of a game, read and played, before two ways to go on.
step-is_ok :
    (b : Board) (uci : Bytes) (r : Result MoveError Move) (k : Move → Board → Result PgnError Bytes)
    (j : Board → Result ChessError Board)
    → ((m : Move) (next : Board) → is_ok (k m next) ≡ is_ok (j next))
    → is_ok (
        wrap_error (unreadable uci) r >>= λ m.
        wrap_error (unplayable uci) (apply_move b m) >>= λ next. k m next)
      ≡ is_ok (apply_parsed b r >>= j)
step-is_ok b uci (err e) k j h = refl
step-is_ok b uci (ok m) k j h = played (apply_move b m)
  where
    played :
        (r : Result ChessError Board)
        → is_ok (wrap_error (unplayable uci) r >>= λ next. k m next) ≡ is_ok (r >>= j)
    played (ok next) = h m next
    played (err e) = refl

move_text-is_ok :
    (b : Board) (ucis : List Bytes) (text : Bytes)
    → is_ok (move_text b ucis text) ≡ is_ok (replay b ucis)
unfolding move_text replay apply_uci
move_text-is_ok b [] text = refl
move_text-is_ok b (uci ∷ ucis) text =
    step-is_ok b uci (parse_uci_move uci)
      (λ m next. move_text next ucis (text ++ (move_number b text ++ (san b m ++ 32 ∷ []))))
      (λ next. replay next ucis)
      (λ m next. move_text-is_ok next ucis (text ++ (move_number b text ++ (san b m ++ 32 ∷ []))))

is_ok-then :
    (r : Result PgnError Bytes) (f : Bytes → Bytes) → is_ok (r >>= λ text. ok (f text)) ≡ is_ok r
is_ok-then (ok text) f = refl
is_ok-then (err e) f = refl

-- Given a start that parses, PGN succeeds exactly when every move of the game is accepted by ApplyUCI in
-- turn, whatever the tags.
pub pgn-is_ok :
    (start : Bytes) (ucis : List Bytes) (tags : StringMap) {b : Board}
    → parse_fen start ≡ ok b
    → is_ok (pgn start ucis tags) ≡ is_ok (replay b ucis)
unfolding pgn
pgn-is_ok start ucis tags {b} h =
    rw h (is_ok-then (move_text b ucis []) _ ∙ move_text-is_ok b ucis [])
