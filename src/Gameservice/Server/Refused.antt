-- ===== src/Gameservice/Server/Refused.antt =====
-- A move that is refused changes nothing: SubmitMove of
-- services/game-service/internal/server/server.go.
use alekhines_counter_gambit.Base.{
  List, Option, [], ap, elim_cases, length, none, refl, some, sym, ℕ, ◌&&◌, ◌++◌, ◌+◌, ◌||◌, ◌∙◌,
  ◌∷◌, ◌≡◌, ◌≢◌,
}
use alekhines_counter_gambit.Base.Result.{Result, err, ok}
use alekhines_counter_gambit.Base.Text.{Bytes}
use alekhines_counter_gambit.Chess.Board.{Board}
use alekhines_counter_gambit.Chess.Fen.Parse.{FenError, parse_fen}
use alekhines_counter_gambit.Chess.Fen.Print.{fen}
use alekhines_counter_gambit.Chess.Legal.{ChessError, apply_uci}
use alekhines_counter_gambit.Chess.Outcome.{is_in_progress, outcome_with_history}
use alekhines_counter_gambit.Gameservice.Server.{
  Env, Status, World, answer, build_history, failed_precondition, internal, invalid_argument,
  move_effects, persist, play_engine_reply, reload, reply_answered, reply_applied, reply_persisted,
}
use alekhines_counter_gambit.Gameservice.Server.Handlers.{
  Answer, MoveRequest, after_reply, mover_refusal, refuse, submit_applied, submit_authorized,
  submit_loaded, submit_move, submit_parsed, submit_persisted,
}
use alekhines_counter_gambit.Store.{Game, StoreError, StoredMove, is_in_progress_text}
use alekhines_counter_gambit.Store.Games.{get_game, is_empty_text}
use mathlib.Core.Bool.{not}

-- An answer that is an error of the caller, and then the world as it was.
abbrev pub Untouched : World → Answer → Type 0
Untouched w x = (s : Status) → x.0 ≡ err s → s ≢ internal → x.1 ≡ w

not_caller : {w : World} (x : Answer) → ((s : Status) → x.0 ≡ err s → s ≡ internal) → Untouched w x
not_caller x h s e ne = absurd (ne (h s e))

abbrev error_of : {A : Type 0} → Status → Result Status A → Status
error_of d (err s) = s
error_of d (ok a) = d

same_error : {A : Type 0} (s t : Status) → ◌≡◌ {A = Result Status A} (err s) (err t) → s ≡ t
same_error s t h = ap (error_of internal) h

reload_error :
    (env : Env) (id : Bytes) (w : World) (s : Status) → (reload env id w).0 ≡ err s → s ≡ internal
unfolding reload
reload_error env id w s = go (get_game env.reload_down id w.db)
  where
    go : (r : Result StoreError (Game × List StoredMove)) → (answer w r).0 ≡ err s → s ≡ internal
    go (ok (g, moves)) h = absurd (cc)
    go (err e) h = sym (same_error internal s h)

-- The engine's reply fails with no error of the caller.
reply_error :
    (env : Env) (g : Game) (after : Board) (history : List Bytes) (ply : ℕ) (w : World) (s : Status)
    → (play_engine_reply env g after history ply w).0 ≡ some s
    → s ≡ internal
unfolding play_engine_reply
reply_error env g after history ply w s = answered (env.engine (fen after) g.engine_depth)
  where
    stored : (r : Result StoreError World) → (reply_persisted w r).0 ≡ some s → s ≡ internal
    stored (err e) h = cc
    stored (ok w') h = absurd (cc)

    played :
        (uci : Bytes) (r : Result ChessError Board)
        → (reply_applied env g history ply uci w r).0 ≡ some s
        → s ≡ internal
    played uci (err e) h = cc
    played uci (ok b) h = stored (persist env.reply_down g b (history ++ fen b ∷ []) ply uci w) h

    answered :
        (best : Option Bytes)
        → (reply_answered env g after history ply w best).0 ≡ some s
        → s ≡ internal
    answered none h = cc
    answered (some uci) h = played uci (apply_uci after uci) h

after_reply_error :
    (env : Env) (id : Bytes) (r : Option Status × World) (s : Status)
    → ((t : Status) → r.0 ≡ some t → t ≡ internal)
    → (after_reply env id r).0 ≡ err s
    → s ≡ internal
after_reply_error env id (some t, w) s h e = sym (same_error t s e) ∙ h t refl
after_reply_error env id (none, w) s h e = reload_error env id w s e

module _ (env : Env) (req : MoveRequest) (w : World) where
  persisted-Untouched :
      (g : Game) (moves : List StoredMove) (after : Board) (history : List Bytes)
      (r : Result StoreError World)
      → Untouched w (submit_persisted env req g moves after history w r)
  persisted-Untouched g moves after history (err e) = λ s h ne. refl
  persisted-Untouched g moves after history (ok w') =
      let verdict = outcome_with_history after history in
      let ended = not (is_in_progress verdict.0) in
      let w'' : World = record w' {
        effects = w'.effects ++ move_effects env g req.player_id verdict ended;
      } in
      let replied = play_engine_reply env g after history (length moves + 1 + 1) w'' in
      elim_cases (Untouched w) (not ended && g.vs_engine) (after_reply env g.id replied)
        (reload env g.id w'')
        (λ t. not_caller _ (λ s.
          after_reply_error env g.id replied s
            (reply_error env g after history (length moves + 1 + 1) w'')))
        (λ t. not_caller _ (reload_error env g.id w''))

  applied-Untouched :
      (g : Game) (moves : List StoredMove) (r : Result ChessError Board)
      → Untouched w (submit_applied env req g moves w r)
  applied-Untouched g moves (err e) = λ s h ne. refl
  applied-Untouched g moves (ok after) =
      let history = build_history moves ++ fen after ∷ [] in
      persisted-Untouched g moves after history
        (persist env.write_down g after history (length moves + 1) req.uci w)

  authorized-Untouched :
      (g : Game) (moves : List StoredMove) (b : Board) (r : Option Status)
      → Untouched w (submit_authorized env req g moves b w r)
  authorized-Untouched g moves b (some s) = λ t h ne. refl
  authorized-Untouched g moves b none = applied-Untouched g moves (apply_uci b req.uci)

  parsed-Untouched :
      (g : Game) (moves : List StoredMove) (r : Result FenError Board)
      → Untouched w (submit_parsed env req g moves w r)
  parsed-Untouched g moves (err e) = λ s h ne. refl
  parsed-Untouched g moves (ok b) = authorized-Untouched g moves b (mover_refusal g b req)

  loaded-Untouched :
      (r : Result StoreError (Game × List StoredMove)) → Untouched w (submit_loaded env req w r)
  loaded-Untouched (err e) = λ s h ne. refl
  loaded-Untouched (ok (g, moves)) =
      elim_cases (Untouched w) (is_in_progress_text g.status)
        (submit_parsed env req g moves w (parse_fen g.fen)) (refuse failed_precondition w)
        (λ t. parsed-Untouched g moves (parse_fen g.fen)) (λ t s h ne. refl)

-- A SubmitMove that answers with any error but an internal one, such as that of a missing argument, a
-- missing or finished game, another player's turn or an illegal move, has changed no table and started
-- no work.
pub submit_move-Untouched :
    (env : Env) (req : MoveRequest) (w : World) (s : Status)
    → (submit_move env req w).0 ≡ err s
    → s ≢ internal
    → (submit_move env req w).1 ≡ w
unfolding submit_move
submit_move-Untouched env req w =
    elim_cases (Untouched w) (is_empty_text req.game_id || is_empty_text req.uci)
      (refuse invalid_argument w)
      (submit_loaded env req w (get_game env.load_down req.game_id w.db)) (λ e s h ne. refl)
      (λ e. loaded-Untouched env req w (get_game env.load_down req.game_id w.db))
