-- ===== src/Gameservice/Server/Played.antt =====
-- What an accepted move leaves in the tables and starts: SubmitMove of
-- services/game-service/internal/server/server.go over AppendMove of pkg/store/store.go.
use alekhines_counter_gambit.Base.{
  Bool, List, [], ap, arith, false, none, refl, some, sym, true, ◌++◌, ◌||◌, ◌∙◌, ◌∷◌, ◌≡◌,
}
use alekhines_counter_gambit.Base.Result.{ok}
use alekhines_counter_gambit.Base.Text.{Bytes}
use alekhines_counter_gambit.Chess.Apply.{behind}
use alekhines_counter_gambit.Chess.Board.{Board}
use alekhines_counter_gambit.Chess.Fen.Parse.{parse_fen}
use alekhines_counter_gambit.Chess.Fen.Print.{fen}
use alekhines_counter_gambit.Chess.Legal.{apply_uci}
use alekhines_counter_gambit.Chess.Outcome.{
  EndReason, GameResult, Verdict, is_in_progress, outcome_with_history,
}
use alekhines_counter_gambit.Gameservice.Mapping.{reason_to_db, result_to_db}
use alekhines_counter_gambit.Gameservice.Server.{
  Effect, Env, World, authorize_mover, build_history, move_effects, to_wire_game,
}
use alekhines_counter_gambit.Gameservice.Server.Accepted.{
  answered, played_move, played_world, submit_move-world,
}
use alekhines_counter_gambit.Gameservice.Server.Consistent.{IsConsistent, IsStored, set_position_id}
use alekhines_counter_gambit.Gameservice.Server.Handlers.{MoveRequest, submit_move}
use alekhines_counter_gambit.Gameservice.Server.Line.{next_move}
use alekhines_counter_gambit.Gameservice.Server.Started.{
  IsPlayed, find_row-update_where, is_over, is_over-not, move_effects-started, row_behind,
  row_behind_fields, started, told, told-result_to_db,
}
use alekhines_counter_gambit.Store.{Game, GameRow, StoredMove, is_in_progress_text}
use alekhines_counter_gambit.Store.Games.{
  appended, find_row, found_game, game_moves, get_game, is_empty_text, read_row, rows_of,
  set_position, sort_by_ply,
}
use alekhines_counter_gambit.Store.Tables.{
  Numbered, Numbered-append, find_row-All, get_game_ok, rows_of-append_same, sort_by_ply-Numbered,
}
use mathlib.Core.Bool.{not}
use mathlib.Core.Option.{some-injective}
use mathlib.Core.Path.{subst}

-- SubmitMove of the game `g` answers with the game behind the move.
abbrev Accepts :
    Env → MoveRequest → World → List StoredMove → Board → GameResult → EndReason → Game → Type 0
Accepts env req w moves after result reason g =
    (g' : Game) × (w' : World) × (submit_move env req w
      ≡ (ok (to_wire_game g' (moves ++ next_move moves req.uci after ∷ [])), w'))
    × IsPlayed env req.player_id g g' moves (next_move moves req.uci after) after result reason w w'

module _ (env : Env) (req : MoveRequest) (w : World) (row : GameRow) (moves : List StoredMove)
    (after : Board) (result : GameResult) (reason : EndReason)
    (listed : rows_of row.id w.db.moves ≡ moves) (numbered : Numbered 1 moves)
    (two : row.vs_engine ≡ false)
    (judged : outcome_with_history after (build_history moves ++ fen after ∷ [])
      ≡ (result, reason)) where
  abbrev move_played : StoredMove
  move_played = played_move moves req.uci after

  abbrev next_row : GameRow
  next_row = row_behind move_played result (reason_to_db reason) w.db.now row

  abbrev world_behind : World
  world_behind = record {
    db = appended row.id move_played (told result).0 (reason_to_db reason) (is_over result) w.db;
    effects =
        w.effects
        ++ started env.session_enabled env.metrics_enabled row.id req.player_id result reason;
  }

  played_world-behind : played_world env req (read_row row) moves after w ≡ world_behind
  unfolding played_world
  played_world-behind =
      let over : Verdict → Bool = λ v. not (is_in_progress v.0) in
      let world : Bytes → Bytes → Bool → List Effect → World = λ status end_reason ended work.
        record {
          db = appended row.id move_played status end_reason ended w.db;
          effects = w.effects ++ work;
        } in
      let effects_of : Verdict → Bool → List Effect =
        move_effects env (read_row row) req.player_id in
      let judge : Verdict → World =
        λ v. world (result_to_db v.0) (reason_to_db v.1) (over v) (effects_of v (over v)) in
      let end_text = reason_to_db reason in
      ap judge judged
      ∙ ap
          (λ s.
            world s end_text (over (result, reason))
              (effects_of (result, reason) (over (result, reason))))
          (told-result_to_db result)
      ∙ ap (λ o. world (told result).0 end_text o (effects_of (result, reason) o))
          (is_over-not result)
      ∙ ap (world (told result).0 end_text (is_over result))
          (move_effects-started env (read_row row) req.player_id result reason two)

  world_behind-IsPlayed :
      find_row row.id w.db.games ≡ some row
      → (find_row row.id world_behind.db.games ≡ some next_row)
        × (game_moves row.id world_behind.db ≡ moves ++ move_played ∷ [])
        × IsPlayed env req.player_id
            (read_row row)
            (read_row next_row)
            moves
            move_played
            after
            result
            reason
            w
            world_behind
  unfolding get_game game_moves
  world_behind-IsPlayed found =
      let (fen_eq, status_eq, reason_eq, time_eq, white_eq, black_eq) =
        row_behind_fields move_played result (reason_to_db reason) w.db.now row in
      let change =
        set_position move_played (told result).0 (reason_to_db reason) (is_over result) w.db.now in
      let row_found : find_row row.id world_behind.db.games ≡ some next_row =
        find_row-update_where row.id change w.db.games
          (set_position_id move_played (told result).0 (reason_to_db reason) (is_over result)
            w.db.now)
          found in
      let listed_next : game_moves row.id world_behind.db ≡ moves ++ move_played ∷ [] =
        ap sort_by_ply (
          rows_of-append_same row.id w.db.moves move_played
          ∙ ap (λ ms. ms ++ move_played ∷ []) listed)
        ∙ sort_by_ply-Numbered 1 (moves ++ move_played ∷ [])
            (Numbered-append 1 moves move_played numbered (omega arith)) in
      (
        row_found,
        listed_next,
        record {
          appended_move = refl;
          read_back =
              ap (found_game row.id world_behind.db) row_found
              ∙ ap (λ ms. ok (read_row next_row, ms)) listed_next;
          position = fen_eq;
          status = status_eq;
          end_reason = reason_eq;
          ended_at = time_eq;
          white_id = white_eq;
          black_id = black_eq;
          outbox_row = refl;
          work_started = refl;
        },
      )

  -- The answer, by what SubmitMove of the row is known to do.
  accepts :
      find_row row.id w.db.games ≡ some row
      → (stored : GameRow)
      → find_row row.id (played_world env req (read_row row) moves after w).db.games ≡ some stored
      → submit_move env req w
        ≡ answered row.id stored (played_world env req (read_row row) moves after w)
      → Accepts env req w moves after result reason (read_row row)
  accepts found stored read finish =
      let (row_found, listed_next, behind) = world_behind-IsPlayed found in
      let same_row : stored ≡ next_row =
        some-injective stored next_row
          (sym read ∙ ap (λ v. find_row row.id v.db.games) played_world-behind ∙ row_found) in
      (
        read_row next_row,
        world_behind,
        finish
            ∙ ap (λ v. answered row.id stored v) played_world-behind
            ∙ ap (λ x. answered row.id x world_behind) same_row
            ∙ ap (λ ms. (ok (to_wire_game (read_row next_row) ms), world_behind)) listed_next,
        behind,
      )

-- A SubmitMove of the player to move in a game of two players that is in progress, with a move that is
-- legal in the stored position, is answered with the game as it is then read from the tables: its moves
-- are the old ones and this one, numbered behind them and with its position; the game has this position
-- and the status of the verdict on it, and if the verdict ends the game, its reason and the time. The
-- outbox has one row more, not yet published, of the same move and verdict. The session manager is told
-- of the move, or of the end and the winner; the move is counted; and a game that is over is closed in
-- the counters and queued for ratings, analysis, PGN and openings. The tables are consistent and no query
-- fails.
pub submit_move-ok :
    (env : Env) (req : MoveRequest) (w : World) (g : Game) (moves : List StoredMove)
    (before after : Board) (result : GameResult) (reason : EndReason)
    → IsConsistent w.db
    → (is_empty_text req.game_id || is_empty_text req.uci) ≡ false
    → env.load_down ≡ false
    → env.write_down ≡ false
    → env.reload_down ≡ false
    → get_game false req.game_id w.db ≡ ok (g, moves)
    → is_in_progress_text g.status ≡ true
    → g.vs_engine ≡ false
    → parse_fen g.fen ≡ ok before
    → authorize_mover g before.turn req.player_id ≡ none
    → apply_uci before req.uci ≡ ok after
    → outcome_with_history after (build_history moves ++ fen after ∷ []) ≡ (result, reason)
    → (g' : Game) × (w' : World) × (submit_move env req w
        ≡ (ok (to_wire_game g' (moves ++ next_move moves req.uci after ∷ [])), w'))
      × IsPlayed env req.player_id g g' moves
          (next_move moves req.uci after)
          after
          result
          reason
          w
          w'
submit_move-ok env req w g moves before after result reason c filled load_up write_up reload_up h
      playing two_players parsed allowed is_played judged =
    let (row, found, same, sorted) = get_game_ok false req.game_id w.db h in
    let (p, id_eq) =
      find_row-All {P = λ r. IsStored (rows_of r.id w.db.moves) r} req.game_id w.db.games c.games
        found in
    let (stored, read, listed, finish) =
      submit_move-world env req w g moves before after c filled load_up write_up reload_up h playing
        two_players parsed allowed is_played in
    let numbered : Numbered 1 moves =
      subst (Numbered 1) (ap (λ x. rows_of x.id w.db.moves) same ∙ listed) p.line.numbered in
    subst
      (λ x.
        rows_of x.id w.db.moves ≡ moves
        → x.vs_engine ≡ false
        → find_row x.id (played_world env req x moves after w).db.games ≡ some stored
        → submit_move env req w ≡ answered x.id stored (played_world env req x moves after w)
        → Accepts env req w moves after result reason x)
      same
      (λ l two.
        accepts env req w row moves after result reason l numbered two judged
          (ap (λ i. find_row i w.db.games) id_eq ∙ found) stored)
      listed two_players read finish
