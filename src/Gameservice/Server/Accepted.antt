-- ===== src/Gameservice/Server/Accepted.antt =====
-- A legal move of the right player is stored: SubmitMove of
-- services/game-service/internal/server/server.go over AppendMove of pkg/store/store.go.
use alekhines_counter_gambit.Base.{
  Bool, List, [], ap, arith, false, if◌then◌else◌, length, none, refl, some, sym, true, ◌&&◌, ◌++◌,
  ◌+◌, ◌||◌, ◌∙◌, ◌∷◌, ◌≡◌,
}
use alekhines_counter_gambit.Base.Result.{ok}
use alekhines_counter_gambit.Base.Text.{Bytes}
use alekhines_counter_gambit.Chess.Board.{Board}
use alekhines_counter_gambit.Chess.Fen.Parse.{parse_fen}
use alekhines_counter_gambit.Chess.Fen.Print.{fen}
use alekhines_counter_gambit.Chess.Legal.{apply_uci}
use alekhines_counter_gambit.Chess.Outcome.{is_in_progress, outcome_with_history}
use alekhines_counter_gambit.Gameservice.Mapping.{reason_to_db, result_to_db}
use alekhines_counter_gambit.Gameservice.Server.{
  Env, World, authorize_mover, build_history, failed_precondition, invalid_argument, move_effects,
  persist, play_engine_reply, reload, to_wire_game,
}
use alekhines_counter_gambit.Gameservice.Server.Consistent.{IsConsistent, IsStored, set_position_id}
use alekhines_counter_gambit.Gameservice.Server.FreePly.{
  any_row_found, append_move-ok, found_any_row,
}
use alekhines_counter_gambit.Gameservice.Server.Handlers.{
  Answer, MoveRequest, after_reply, mover_refusal, refuse, submit_applied, submit_authorized,
  submit_loaded, submit_move, submit_parsed, submit_persisted,
}
use alekhines_counter_gambit.Gameservice.Server.Line.{IsLine}
use alekhines_counter_gambit.Store.{Game, GameRow, StoredMove, is_in_progress_text}
use alekhines_counter_gambit.Store.Games.{
  any_row, appended, find_row, game_moves, get_game, has_id, is_empty_text, read_row, rows_of,
  set_position, update_where,
}
use alekhines_counter_gambit.Store.Tables.{
  any_row-update_where, find_row-All, get_game_ok, sort_by_ply-Numbered,
}
use mathlib.Core.Bool.{not}
use mathlib.Core.Path.{subst}

-- What SubmitMove stores for an accepted move, and what it starts.
abbrev pub played_move : List StoredMove → Bytes → Board → StoredMove
played_move moves uci after = record { ply = length moves + 1; uci = uci; fen_after = fen after }

unfoldable pub played_world : Env → MoveRequest → Game → List StoredMove → Board → World → World
unfolding outcome_with_history move_effects update_where
played_world env req g moves after w =
    let verdict = outcome_with_history after (build_history moves ++ fen after ∷ []) in
    let ended = not (is_in_progress verdict.0) in
    record {
      db =
          appended g.id (played_move moves req.uci after) (result_to_db verdict.0)
            (reason_to_db verdict.1) ended w.db;
      effects = w.effects ++ move_effects env g req.player_id verdict ended;
    }

-- The answer with the row of a game.
abbrev pub answered : Bytes → GameRow → World → Answer
answered id row w = (ok (to_wire_game (read_row row) (game_moves id w.db)), w)

and_false : (a : Bool) → (a && false) ≡ false
and_false true = refl
and_false false = refl

-- The last query of the handler finds the game, as its row is now.
reload-ok :
    (env : Env) (id : Bytes) (w : World)
    → env.reload_down ≡ false
    → any_row (has_id id) w.db.games ≡ true
    → (row : GameRow) × (find_row id w.db.games ≡ some row) × (reload env id w ≡ answered id row w)
unfolding reload get_game
reload-ok env id w up known =
    let (row, found) = found_any_row id w.db.games known in (row, found, rw (up, found) refl)

module _ (env : Env) (req : MoveRequest) (w : World) (g : Game) (moves : List StoredMove)
    (before after : Board) (two_players : g.vs_engine ≡ false) (write_up : env.write_down ≡ false)
    (reload_up : env.reload_down ≡ false)
    (allowed : authorize_mover g before.turn req.player_id ≡ none)
    (is_played : apply_uci before req.uci ≡ ok after) (c : IsConsistent w.db)
    (l : IsLine (rows_of g.id w.db.moves)) (count : length (rows_of g.id w.db.moves) ≡ length moves)
    (known : any_row (has_id g.id) w.db.games ≡ true) where
  persist-ok :
      persist env.write_down g after
        (build_history moves ++ fen after ∷ [])
        (length moves + 1)
        req.uci
        w
      ≡ ok (record w { db = (played_world env req g moves after w).db })
  unfolding persist played_world
  persist-ok =
      let verdict = outcome_with_history after (build_history moves ++ fen after ∷ []) in
      rw
        (
          write_up,
          append_move-ok g.id w.db (played_move moves req.uci after) (result_to_db verdict.0)
              (reason_to_db verdict.1) (not (is_in_progress verdict.0)) c l (omega (arith, count))
              known,
        )
        refl

  persisted-ok :
      (row : GameRow) × (find_row g.id (played_world env req g moves after w).db.games ≡ some row)
      × (submit_persisted env req g moves after
            (build_history moves ++ fen after ∷ [])
            w
            (ok (record w { db = (played_world env req g moves after w).db }))
          ≡ answered g.id row (played_world env req g moves after w))
  unfolding played_world
  persisted-ok =
      let history = build_history moves ++ fen after ∷ [] in
      let verdict = outcome_with_history after history in
      let ended = not (is_in_progress verdict.0) in
      let m = played_move moves req.uci after in
      let w' = played_world env req g moves after w in
      let change =
        set_position m (result_to_db verdict.0) (reason_to_db verdict.1) ended w.db.now in
      let still =
        any_row-update_where g.id (has_id g.id) change w.db.games
          (set_position_id m (result_to_db verdict.0) (reason_to_db verdict.1) ended w.db.now)
        ∙ known in
      let (row, found, same) = reload-ok env g.id w' reload_up still in
      let next : Bool → Answer = λ replies. elim replies [
        | true ↦
            after_reply env g.id (play_engine_reply env g after history (length moves + 1 + 1) w')
        | false ↦ reload env g.id w'
      ] in
      (row, found, ap next (ap (λ v. not ended && v) two_players ∙ and_false (not ended)) ∙ same)

  parsed-ok :
      (row : GameRow) × (find_row g.id (played_world env req g moves after w).db.games ≡ some row)
      × (submit_parsed env req g moves w (ok before)
          ≡ answered g.id row (played_world env req g moves after w))
  parsed-ok =
      let (row, found, same) = persisted-ok in
      let refusal : mover_refusal g before req ≡ none =
        ap (λ v. if v then none else authorize_mover g before.turn req.player_id) two_players
        ∙ allowed in
      (
        row,
        found,
        ap (submit_authorized env req g moves before w) refusal
            ∙ ap (submit_applied env req g moves w) is_played
            ∙ ap (submit_persisted env req g moves after (build_history moves ++ fen after ∷ []) w)
                persist-ok
            ∙ same,
      )

-- The world behind a move that is accepted, and the row that the answer reads.
pub submit_move-world :
    (env : Env) (req : MoveRequest) (w : World) (g : Game) (moves : List StoredMove)
    (before after : Board)
    → IsConsistent w.db
    → (is_empty_text req.game_id || is_empty_text req.uci) ≡ false
    → env.load_down ≡ false
    → env.write_down ≡ false
    → env.reload_down ≡ false
    → get_game false req.game_id w.db ≡ ok (g, moves)
    → is_in_progress_text g.status ≡ true
    → g.vs_engine ≡ false
    → parse_fen g.fen ≡ ok before
    → authorize_mover g before.turn req.player_id ≡ none
    → apply_uci before req.uci ≡ ok after
    → (row : GameRow) × (find_row g.id (played_world env req g moves after w).db.games ≡ some row)
      × (rows_of g.id w.db.moves ≡ moves)
      × (submit_move env req w ≡ answered g.id row (played_world env req g moves after w))
unfolding submit_move game_moves
submit_move-world env req w g moves before after c filled load_up write_up reload_up h playing
      two_players parsed allowed is_played =
    let (row, found, same, sorted) = get_game_ok false req.game_id w.db h in
    let (p, id_eq) =
      find_row-All {P = λ r. IsStored (rows_of r.id w.db.moves) r} req.game_id w.db.games c.games
        found in
    let gid : row.id ≡ g.id = ap (λ x. x.id) same in
    let line : IsLine (rows_of g.id w.db.moves) =
      subst (λ i. IsLine (rows_of i w.db.moves)) gid p.line in
    let listed : rows_of g.id w.db.moves ≡ moves =
      sym (sort_by_ply-Numbered 1 (rows_of g.id w.db.moves) line.numbered)
      ∙ ap (λ i. game_moves i w.db) (sym gid ∙ id_eq)
      ∙ sorted in
    let known =
      ap (λ i. any_row (has_id i) w.db.games) (sym gid ∙ id_eq)
      ∙ any_row_found req.game_id w.db.games {row = row} found in
    let (stored, read_back, finish) =
      parsed-ok env req w g moves before after two_players write_up reload_up allowed is_played c
        line (ap length listed) known in
    let start : Bool → Answer = λ empty. elim empty [
      | true ↦ refuse invalid_argument w
      | false ↦ submit_loaded env req w (get_game env.load_down req.game_id w.db)
    ] in
    let go_on : Bool → Answer = λ running. elim running [
      | true ↦ submit_parsed env req g moves w (parse_fen g.fen)
      | false ↦ refuse failed_precondition w
    ] in
    (
      stored,
      read_back,
      listed,
      ap start filled
          ∙ ap (λ d. submit_loaded env req w (get_game d req.game_id w.db)) load_up
          ∙ ap (submit_loaded env req w) h
          ∙ ap go_on playing
          ∙ ap (submit_parsed env req g moves w) parsed
          ∙ finish,
    )
