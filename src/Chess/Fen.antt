-- ===== src/Chess/Fen.antt =====
-- FEN: ParseFEN and FEN of pkg/chess/fen.go.
-- What is printed is in Chess/Fen/Print.antt, what is read in Chess/Fen/Parse.antt.
pub mod Print
pub mod Parse
pub mod Place
pub mod Ranks
pub mod RoundTrip
pub mod Sound
pub mod Game
pub mod Key
