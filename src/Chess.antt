-- ===== src/Chess.antt =====
-- The rules of chess, after pkg/chess.
pub mod Piece
pub mod Packed
pub mod Board
pub mod Attack
pub mod Move
pub mod MoveGen
pub mod Apply
pub mod Legal
pub mod Outcome
pub mod Fen
pub mod San
pub mod Pgn
pub mod Tests
pub mod Examples
