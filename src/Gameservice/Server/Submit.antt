-- ===== src/Gameservice/Server/Submit.antt =====
-- SubmitMove keeps the tables consistent, whatever fails in it:
-- services/game-service/internal/server/server.go.
use alekhines_counter_gambit.Base.{
  List, Option, [], ap, arith, elim_cases, length, none, refl, some, sym, ℕ, ◌&&◌, ◌++◌, ◌+◌, ◌<◌,
  ◌||◌, ◌∙◌, ◌∷◌, ◌≡◌, ◌≤◌,
}
use alekhines_counter_gambit.Base.Decimal.{max_int}
use alekhines_counter_gambit.Base.Result.{Result, err, ok}
use alekhines_counter_gambit.Base.Text.{Bytes}
use alekhines_counter_gambit.Chess.Board.{Board}
use alekhines_counter_gambit.Chess.Fen.Parse.{FenError, parse_fen}
use alekhines_counter_gambit.Chess.Fen.Print.{fen}
use alekhines_counter_gambit.Chess.Fen.RoundTrip.{parse_fen-fen}
use alekhines_counter_gambit.Chess.Legal.{ChessError, apply_uci}
use alekhines_counter_gambit.Chess.Outcome.{is_in_progress, outcome_with_history}
use alekhines_counter_gambit.Gameservice.Server.{
  Env, Status, World, build_history, failed_precondition, invalid_argument, move_effects, persist,
  play_engine_reply, reload, reply_answered, reply_applied, reply_persisted,
}
use alekhines_counter_gambit.Gameservice.Server.Consistent.{IsConsistent, IsStored}
use alekhines_counter_gambit.Gameservice.Server.Handlers.{
  Answer, MoveRequest, after_reply, mover_refusal, refuse, submit_applied, submit_authorized,
  submit_loaded, submit_move, submit_parsed, submit_persisted,
}
use alekhines_counter_gambit.Gameservice.Server.Position.{IsAt, persist_ok, reload_same}
use alekhines_counter_gambit.Store.{Db, Game, GameRow, StoreError, StoredMove, is_in_progress_text}
use alekhines_counter_gambit.Store.Games.{game_moves, get_game, is_empty_text, read_row, rows_of}
use alekhines_counter_gambit.Store.Ratings.Ledger.{total}
use alekhines_counter_gambit.Store.Tables.{find_row-All, get_game_ok, sort_by_ply-Numbered}
use mathlib.Core.Bool.{not}
use mathlib.Core.Path.{subst}

-- Consistent tables of at most `bound` moves.
pub record IsWithin (bound : ℕ) (db : Db) : Type 0 where
  pub consistent : IsConsistent db
  pub few : length db.moves ≤ bound

IsAt-IsWithin :
    {id : Bytes} {board : Board} {n total : ℕ} {db : Db} (bound : ℕ)
    → total ≤ bound
    → IsAt id board n total db
    → IsWithin bound db
IsAt-IsWithin bound le a = record { consistent = a.consistent; few = omega (arith, a.total_eq, le) }

module _ (bound : ℕ) (fits : bound < max_int) (env : Env) (g : Game) (before : Board) (n total : ℕ)
    (room : total + 1 ≤ bound) where
  reply_persisted-IsWithin :
      (w : World) (r : Result StoreError World)
      → IsWithin bound w.db
      → ((w' : World) → r ≡ ok w' → IsWithin bound w'.db)
      → IsWithin bound (reply_persisted w r).1.db
  reply_persisted-IsWithin w (ok w') c h = h w' refl
  reply_persisted-IsWithin w (err e) c h = c

  reply_applied-IsWithin :
      (history : List Bytes) (uci : Bytes) (w : World) (r : Result ChessError Board)
      → IsAt g.id before n total w.db
      → apply_uci before uci ≡ r
      → IsWithin bound (reply_applied env g history (n + 1) uci w r).1.db
  reply_applied-IsWithin history uci w (err x) a e = IsAt-IsWithin bound (omega arith) a
  reply_applied-IsWithin history uci w (ok board) a e =
      let longer_history = history ++ fen board ∷ [] in
      reply_persisted-IsWithin w (persist env.reply_down g board longer_history (n + 1) uci w)
        (IsAt-IsWithin bound (omega arith) a)
        (λ w' h. IsAt-IsWithin bound room (
          persist_ok env.reply_down g before board longer_history n total uci w a (omega arith) e
            h))

  reply_answered-IsWithin :
      (history : List Bytes) (w : World) (best : Option Bytes)
      → IsAt g.id before n total w.db
      → IsWithin bound (reply_answered env g before history (n + 1) w best).1.db
  reply_answered-IsWithin history w none a = IsAt-IsWithin bound (omega arith) a
  reply_answered-IsWithin history w (some uci) a =
      reply_applied-IsWithin history uci w (apply_uci before uci) a refl

  play_engine_reply-IsWithin :
      (history : List Bytes) (w : World)
      → IsAt g.id before n total w.db
      → IsWithin bound (play_engine_reply env g before history (n + 1) w).1.db
  unfolding play_engine_reply
  play_engine_reply-IsWithin history w a =
      reply_answered-IsWithin history w (env.engine (fen before) g.engine_depth) a

after_reply-IsWithin :
    (bound : ℕ) (env : Env) (id : Bytes) (r : Option Status × World)
    → IsWithin bound r.1.db
    → IsWithin bound (after_reply env id r).1.db
after_reply-IsWithin bound env id (some s, w) c = c
after_reply-IsWithin bound env id (none, w) c =
    subst (λ v. IsWithin bound v.db) (sym (reload_same env id w)) c

module _ (bound : ℕ) (fits : bound < max_int) (env : Env) (req : MoveRequest) (w : World) where
  submit_persisted-IsWithin :
      (g : Game) (moves : List StoredMove) (after : Board) (history : List Bytes)
      (r : Result StoreError World) (total : ℕ)
      → total + 1 ≤ bound
      → IsWithin bound w.db
      → ((w' : World) → r ≡ ok w' → IsAt g.id after (length moves + 1) total w'.db)
      → IsWithin bound (submit_persisted env req g moves after history w r).1.db
  submit_persisted-IsWithin g moves after history (err e) total small c h = c
  submit_persisted-IsWithin g moves after history (ok w') total small c h =
      let verdict = outcome_with_history after history in
      let ended = not (is_in_progress verdict.0) in
      let w'' : World = record w' {
        effects = w'.effects ++ move_effects env g req.player_id verdict ended;
      } in
      let a = h w' refl in
      elim_cases (λ (x : Answer). IsWithin bound x.1.db) (not ended && g.vs_engine)
        (after_reply env g.id (play_engine_reply env g after history (length moves + 1 + 1) w''))
        (reload env g.id w'')
        (λ t. after_reply-IsWithin bound env g.id _ (
          play_engine_reply-IsWithin bound fits env g after (length moves + 1) total small history
            w''
            (record {
              consistent = a.consistent;
              line = a.line;
              board_eq = a.board_eq;
              count = a.count;
              total_eq = a.total_eq;
            })))
        (λ t.
          subst (λ v. IsWithin bound v.db) (sym (reload_same env g.id w''))
            (IsAt-IsWithin bound (omega arith) a))

  submit_applied-IsWithin :
      (g : Game) (moves : List StoredMove) (before : Board) (total : ℕ)
      (r : Result ChessError Board)
      → total + 2 ≤ bound
      → IsAt g.id before (length moves) total w.db
      → apply_uci before req.uci ≡ r
      → IsWithin bound (submit_applied env req g moves w r).1.db
  submit_applied-IsWithin g moves before total (err e) small a h =
      IsAt-IsWithin bound (omega arith) a
  submit_applied-IsWithin g moves before total (ok after) small a h =
      let history = build_history moves ++ fen after ∷ [] in
      submit_persisted-IsWithin g moves after history
        (persist env.write_down g after history (length moves + 1) req.uci w) (total + 1)
        (omega arith) (IsAt-IsWithin bound (omega arith) a)
        (λ w' e.
          persist_ok env.write_down g before after history (length moves) total req.uci w a
            (omega arith) h e)

  submit_authorized-IsWithin :
      (g : Game) (moves : List StoredMove) (before : Board) (total : ℕ) (r : Option Status)
      → total + 2 ≤ bound
      → IsAt g.id before (length moves) total w.db
      → IsWithin bound (submit_authorized env req g moves before w r).1.db
  submit_authorized-IsWithin g moves before total (some s) small a =
      IsAt-IsWithin bound (omega arith) a
  submit_authorized-IsWithin g moves before total none small a =
      submit_applied-IsWithin g moves before total (apply_uci before req.uci) small a refl

  submit_parsed-IsWithin :
      (g : Game) (moves : List StoredMove) (before : Board) (total : ℕ) (r : Result FenError Board)
      → r ≡ ok before
      → total + 2 ≤ bound
      → IsAt g.id before (length moves) total w.db
      → IsWithin bound (submit_parsed env req g moves w r).1.db
  submit_parsed-IsWithin g moves before total r e small a =
      rw e (submit_authorized-IsWithin g moves before total (mover_refusal g before req) small a)

  submit_found-IsWithin :
      (row : GameRow) (moves : List StoredMove)
      → length w.db.moves + 2 ≤ bound
      → IsConsistent w.db
      → IsStored (rows_of row.id w.db.moves) row
      → game_moves row.id w.db ≡ moves
      → IsWithin bound (submit_loaded env req w (ok (read_row row, moves))).1.db
  unfolding game_moves
  submit_found-IsWithin row moves small c p sorted =
      let l = p.line in
      let listed : rows_of row.id w.db.moves ≡ moves =
        sym (sort_by_ply-Numbered 1 (rows_of row.id w.db.moves) l.numbered) ∙ sorted in
      elim_cases (λ (x : Answer). IsWithin bound x.1.db) (is_in_progress_text row.status)
        (submit_parsed env req (read_row row) moves w (parse_fen row.fen))
        (refuse failed_precondition w)
        (λ t.
          submit_parsed-IsWithin (read_row row) moves l.board (length w.db.moves)
            (parse_fen row.fen) (ap parse_fen p.position ∙ parse_fen-fen l.board l.printable) small
            (record {
              consistent = c;
              line = l;
              board_eq = refl;
              count = ap length listed;
              total_eq = refl;
            }))
        (λ t. record { consistent = c; few = omega (arith, small) })

  submit_loaded-IsWithin :
      (r : Result StoreError (Game × List StoredMove))
      → length w.db.moves + 2 ≤ bound
      → IsConsistent w.db
      → get_game env.load_down req.game_id w.db ≡ r
      → IsWithin bound (submit_loaded env req w r).1.db
  submit_loaded-IsWithin (err e) small c h = record { consistent = c; few = omega (arith, small) }
  submit_loaded-IsWithin (ok (g, moves)) small c h =
      let (row, found, same, sorted) = get_game_ok env.load_down req.game_id w.db h in
      let (p, id_eq) =
        find_row-All {P = λ r. IsStored (rows_of r.id w.db.moves) r} req.game_id w.db.games c.games
          found in
      subst (λ x. IsWithin bound (submit_loaded env req w (ok (x, moves))).1.db) same
        (submit_found-IsWithin row moves small c p (ap (λ i. game_moves i w.db) id_eq ∙ sorted))

  pub submit_move-IsWithin :
      length w.db.moves + 2 ≤ bound
      → IsConsistent w.db
      → IsWithin bound (submit_move env req w).1.db
  unfolding submit_move
  submit_move-IsWithin small c =
      elim_cases (λ (x : Answer). IsWithin bound x.1.db)
        (is_empty_text req.game_id || is_empty_text req.uci) (refuse invalid_argument w)
        (submit_loaded env req w (get_game env.load_down req.game_id w.db))
        (λ e. record { consistent = c; few = omega (arith, small) })
        (λ e. submit_loaded-IsWithin (get_game env.load_down req.game_id w.db) small c refl)

-- After SubmitMove, whether it succeeds or fails at any step, every stored game is still the position
-- that its stored moves reach from the start, each move legal, numbered and with its FEN, and the
-- outbox announces the moves in order; given that it was so before, and fewer moves in the table than
-- an int can count.
pub submit_move-IsConsistent :
    (env : Env) (req : MoveRequest) (w : World)
    → IsConsistent w.db
    → length w.db.moves + 2 < max_int
    → IsConsistent (submit_move env req w).1.db
submit_move-IsConsistent env req w c small =
    (submit_move-IsWithin (length w.db.moves + 2) small env req w (omega arith) c).consistent
