-- ===== src/Gameservice/Server/Frame.antt =====
-- What a move of one game keeps of the tables: SubmitMove of
-- services/game-service/internal/server/server.go behind the game that it has read.
use alekhines_counter_gambit.Base.{
  Bool, List, Option, [], elim_cases, length, none, refl, some, sym, ℕ, ◌&&◌, ◌++◌, ◌+◌, ◌∷◌, ◌≡◌,
}
use alekhines_counter_gambit.Base.Result.{Result, both_ok, err, ok, ok-injective}
use alekhines_counter_gambit.Base.Text.{Bytes}
use alekhines_counter_gambit.Chess.Board.{Board}
use alekhines_counter_gambit.Chess.Fen.Parse.{FenError}
use alekhines_counter_gambit.Chess.Fen.Print.{fen}
use alekhines_counter_gambit.Chess.Legal.{ChessError, apply_uci}
use alekhines_counter_gambit.Chess.Outcome.{is_in_progress, outcome_with_history}
use alekhines_counter_gambit.Gameservice.History.{written}
use alekhines_counter_gambit.Gameservice.Mapping.{reason_to_db, result_to_db}
use alekhines_counter_gambit.Gameservice.Server.{
  Env, Status, World, build_history, move_effects, persist, play_engine_reply, reload,
  reply_answered, reply_applied, reply_persisted,
}
use alekhines_counter_gambit.Gameservice.Server.Handlers.{
  Answer, MoveRequest, after_reply, mover_refusal, submit_applied, submit_authorized, submit_parsed,
  submit_persisted,
}
use alekhines_counter_gambit.Gameservice.Server.Position.{reload_same}
use alekhines_counter_gambit.Store.{Db, Game, StoreError, StoredMove}
use alekhines_counter_gambit.Store.Games.{append_move, appended}
use alekhines_counter_gambit.Store.Tables.{append_move_ok}
use mathlib.Core.Bool.{not}
use mathlib.Core.Path.{subst}

-- `K` is kept by every transaction on the moves of game `g`.
module _ (K : Db → Type 0) (env : Env) (g : Game)
    (keep : (m : StoredMove) (status end_reason : Bytes) (ended : Bool) (db : Db)
      → K db
      → K (appended g.id m status end_reason ended db)) where
  persist_keeps :
      (down : Bool) (b : Board) (history : List Bytes) (ply : ℕ) (uci : Bytes) (w : World)
      {w' : World}
      → K w.db
      → persist down g b history ply uci w ≡ ok w'
      → K w'.db
  unfolding persist
  persist_keeps down b history ply uci w k h =
      let (result, reason) = outcome_with_history b history in
      let m : StoredMove = record { ply = ply; uci = uci; fen_after = fen b } in
      let ended = not (is_in_progress result) in
      let (db', written, same) =
        both_ok (append_move down g.id m (result_to_db result) (reason_to_db reason) ended w.db)
          (λ db. ok (record w { db = db })) h in
      let (known, made) =
        append_move_ok down g.id m (result_to_db result) (reason_to_db reason) ended w.db written in
      subst (λ v. K v.db) (ok-injective _ _ same)
        (subst K made (keep m (result_to_db result) (reason_to_db reason) ended w.db k))

  reply_keeps :
      (after : Board) (history : List Bytes) (ply : ℕ) (w : World)
      → K w.db
      → K (play_engine_reply env g after history ply w).1.db
  unfolding play_engine_reply
  reply_keeps after history ply w k = answered (env.engine (fen after) g.engine_depth)
    where
      stored :
          (r : Result StoreError World)
          → ((w' : World) → r ≡ ok w' → K w'.db)
          → K (reply_persisted w r).1.db
      stored (err e) h = k
      stored (ok w') h = h w' refl

      played :
          (uci : Bytes) (r : Result ChessError Board)
          → K (reply_applied env g history ply uci w r).1.db
      played uci (err e) = k
      played uci (ok b) =
          stored (persist env.reply_down g b (history ++ fen b ∷ []) ply uci w)
            (λ w' h. persist_keeps env.reply_down b (history ++ fen b ∷ []) ply uci w k h)

      answered : (best : Option Bytes) → K (reply_answered env g after history ply w best).1.db
      answered none = k
      answered (some uci) = played uci (apply_uci after uci)

  module _ (req : MoveRequest) (moves : List StoredMove) (w : World) (k : K w.db) where
    after_reply_keeps : (r : Option Status × World) → K r.1.db → K (after_reply env g.id r).1.db
    after_reply_keeps (some s, v) h = h
    after_reply_keeps (none, v) h = subst (λ u. K u.db) (sym (reload_same env g.id v)) h

    persisted_keeps :
        (after : Board) (history : List Bytes) (r : Result StoreError World)
        → ((w' : World) → r ≡ ok w' → K w'.db)
        → K (submit_persisted env req g moves after history w r).1.db
    persisted_keeps after history (err e) h = k
    persisted_keeps after history (ok w') h =
        let verdict = outcome_with_history after history in
        let ended = not (is_in_progress verdict.0) in
        let w'' : World = record w' {
          effects = w'.effects ++ move_effects env g req.player_id verdict ended;
        } in
        elim_cases (λ (x : Answer). K x.1.db) (not ended && g.vs_engine)
          (after_reply env g.id (play_engine_reply env g after history (length moves + 1 + 1) w''))
          (reload env g.id w'')
          (λ t.
            after_reply_keeps _ (reply_keeps after history (length moves + 1 + 1) w'' (h w' refl)))
          (λ t. subst (λ v. K v.db) (sym (reload_same env g.id w'')) (h w' refl))

    applied_keeps : (r : Result ChessError Board) → K (submit_applied env req g moves w r).1.db
    applied_keeps (err e) = k
    applied_keeps (ok after) =
        let history = build_history moves ++ fen after ∷ [] in
        persisted_keeps after history
          (persist env.write_down g after history (length moves + 1) req.uci w)
          (λ w' h. persist_keeps env.write_down after history (length moves + 1) req.uci w k h)

    authorized_keeps :
        (b : Board) (r : Option Status) → K (submit_authorized env req g moves b w r).1.db
    authorized_keeps b (some s) = k
    authorized_keeps b none = applied_keeps (apply_uci b req.uci)

    pub parsed_keeps : (r : Result FenError Board) → K (submit_parsed env req g moves w r).1.db
    parsed_keeps (err e) = k
    parsed_keeps (ok b) = authorized_keeps b (mover_refusal g b req)
