-- ===== src/Gameservice/Mapping.antt =====
-- The names of results: services/game-service/internal/server/mapping.go.
use alekhines_counter_gambit.Base.{[], if◌then◌else◌}
use alekhines_counter_gambit.Base.Text.{Bytes, bytes_eq, codes}
use alekhines_counter_gambit.Chess.Outcome.{
  EndReason, GameResult, black_wins, checkmate, draw, fifty_move, in_progress,
  insufficient_material, ongoing, stalemate, threefold_repetition, white_wins,
}

abbrev pub result_to_db : GameResult → Bytes
result_to_db white_wins = codes "WHITE_WON"
result_to_db black_wins = codes "BLACK_WON"
result_to_db draw = codes "DRAW"
result_to_db in_progress = codes "IN_PROGRESS"

abbrev pub reason_to_db : EndReason → Bytes
reason_to_db checkmate = codes "CHECKMATE"
reason_to_db stalemate = codes "STALEMATE"
reason_to_db insufficient_material = codes "INSUFFICIENT_MATERIAL"
reason_to_db fifty_move = codes "FIFTY_MOVE"
reason_to_db threefold_repetition = codes "THREEFOLD"
reason_to_db ongoing = []

abbrev pub reason_to_session : EndReason → Bytes
reason_to_session checkmate = codes "checkmate"
reason_to_session stalemate = codes "stalemate"
reason_to_session insufficient_material = codes "insufficient_material"
reason_to_session fifty_move = codes "fifty_move"
reason_to_session threefold_repetition = codes "threefold"
reason_to_session ongoing = codes "ended"

-- The wire's Status and EndReason.
pub data WireStatus : Type 0 where
  status_unspecified status_in_progress status_white_won status_black_won status_draw : WireStatus

pub data WireReason : Type 0 where
  reason_unspecified reason_checkmate reason_stalemate reason_insufficient_material
        reason_fifty_move reason_threefold reason_resignation :
      WireReason

unfoldable pub status_from_db : Bytes → WireStatus
status_from_db s =
    if bytes_eq s (codes "WHITE_WON")
    then status_white_won
    else if bytes_eq s (codes "BLACK_WON")
    then status_black_won
    else if bytes_eq s (codes "DRAW")
    then status_draw
    else if bytes_eq s (codes "IN_PROGRESS")
    then status_in_progress
    else status_unspecified

unfoldable pub end_reason_from_db : Bytes → WireReason
end_reason_from_db s =
    if bytes_eq s (codes "CHECKMATE")
    then reason_checkmate
    else if bytes_eq s (codes "STALEMATE")
    then reason_stalemate
    else if bytes_eq s (codes "INSUFFICIENT_MATERIAL")
    then reason_insufficient_material
    else if bytes_eq s (codes "FIFTY_MOVE")
    then reason_fifty_move
    else if bytes_eq s (codes "THREEFOLD")
    then reason_threefold
    else if bytes_eq s (codes "RESIGNATION")
    then reason_resignation
    else reason_unspecified

-- pgnResult of history.go.
unfoldable pub pgn_result : Bytes → Bytes
pgn_result status =
    if bytes_eq status (codes "WHITE_WON")
    then codes "1-0"
    else if bytes_eq status (codes "BLACK_WON")
    then codes "0-1"
    else if bytes_eq status (codes "DRAW")
    then codes "1/2-1/2"
    else codes "*"
