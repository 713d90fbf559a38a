-- ===== src/Gameservice/Server/Position.antt =====
-- Where a stored game stands, and its next stored move: services/game-service/internal/server/server.go
-- over AppendMove of pkg/store/store.go.
use alekhines_counter_gambit.Base.{
  Bool, List, [], ap, arith, length, length-append, refl, true, ℕ, ◌+◌, ◌<◌, ◌∙◌, ◌∷◌, ◌≡◌,
}
use alekhines_counter_gambit.Base.Decimal.{max_int}
use alekhines_counter_gambit.Base.Result.{Result, both_ok, err, ok, ok-injective}
use alekhines_counter_gambit.Base.Text.{Bytes}
use alekhines_counter_gambit.Chess.Board.{Board}
use alekhines_counter_gambit.Chess.Fen.Print.{fen}
use alekhines_counter_gambit.Chess.Legal.{apply_uci}
use alekhines_counter_gambit.Chess.Outcome.{is_in_progress, outcome_with_history}
use alekhines_counter_gambit.Gameservice.Mapping.{reason_to_db, result_to_db}
use alekhines_counter_gambit.Gameservice.Server.{Env, World, answer, persist, reload}
use alekhines_counter_gambit.Gameservice.Server.Consistent.{
  IsConsistent, appended-IsConsistent, longer,
}
use alekhines_counter_gambit.Gameservice.Server.Line.{IsLine, next_move}
use alekhines_counter_gambit.Store.{Db, Game, StoreError, StoredMove}
use alekhines_counter_gambit.Store.Games.{any_row, append_move, appended, get_game, has_id, rows_of}
use alekhines_counter_gambit.Store.Tables.{append_move_ok, rows_of-append_same}
use mathlib.Core.Bool.{not}
use mathlib.Core.Path.{subst}

-- A game that is at `board` after `n` stored moves, in consistent tables of `total` moves.
pub record IsAt (id : Bytes) (board : Board) (n total : ℕ) (db : Db) : Type 0 where
  pub consistent : IsConsistent db
  pub line : IsLine (rows_of id db.moves)
  pub board_eq : line.board ≡ board
  pub count : length (rows_of id db.moves) ≡ n
  pub total_eq : length db.moves ≡ total

module _ (id : Bytes) (before after : Board) (n total : ℕ) (db : Db) (a : IsAt id before n total db)
    (small : total + 1 < max_int) (uci : Bytes) (e : apply_uci before uci ≡ ok after) where
  appended-IsAt :
      (status end_reason : Bytes) (ended : Bool)
      → any_row (has_id id) db.games ≡ true
      → IsAt id after
          (n + 1)
          (total + 1)
          (appended id (next_move (rows_of id db.moves) uci after) status end_reason ended db)
  appended-IsAt status end_reason ended known =
      let played = ap (λ b. apply_uci b uci) a.board_eq ∙ e in
      let fits : length db.moves + 1 < max_int = omega (arith, a.total_eq) in
      let m = next_move (rows_of id db.moves) uci after in
      let (k, kb) =
        longer id uci status end_reason ended after db a.consistent a.line fits played in
      record {
        consistent =
            appended-IsConsistent id uci status end_reason ended after db a.consistent a.line fits
              played known;
        line = k;
        board_eq = kb;
        count = omega (
          arith,
          a.count,
          length-append (rows_of id db.moves) (m ∷ []),
          ap length (rows_of-append_same id db.moves m),
        );
        total_eq = omega (arith, a.total_eq, length-append db.moves ((id, m) ∷ []));
      }

pub persist_ok :
    (down : Bool) (g : Game) (before after : Board) (history : List Bytes) (n total : ℕ)
    (uci : Bytes) (w : World) {w' : World}
    → IsAt g.id before n total w.db
    → total + 1 < max_int
    → apply_uci before uci ≡ ok after
    → persist down g after history (n + 1) uci w ≡ ok w'
    → IsAt g.id after (n + 1) (total + 1) w'.db
unfolding persist
persist_ok down g before after history n total uci w {w'} a small e h =
    let (result, reason) = outcome_with_history after history in
    let m : StoredMove = record { ply = n + 1; uci = uci; fen_after = fen after } in
    let status = result_to_db result in
    let ended = not (is_in_progress result) in
    let (db', written, same) =
      both_ok (append_move down g.id m status (reason_to_db reason) ended w.db)
        (λ db. ok (record w { db = db })) h in
    let (known, made) =
      append_move_ok down g.id m status (reason_to_db reason) ended w.db written in
    let moved : next_move (rows_of g.id w.db.moves) uci after ≡ m =
      ap (λ k. record { ply = k + 1; uci = uci; fen_after = fen after }) a.count in
    subst (λ v. IsAt g.id after (n + 1) (total + 1) v.db) (ok-injective _ _ same)
      (subst (IsAt g.id after (n + 1) (total + 1)) made (
        subst
          (λ x.
            IsAt g.id after (n + 1) (total + 1)
              (appended g.id x status (reason_to_db reason) ended w.db))
          moved
          (appended-IsAt g.id before after n total w.db a small uci e status (reason_to_db reason)
            ended known)))

-- What one handler does, by the answers of the calls that it makes. A call that fails leaves the tables.

pub reload_same : (env : Env) (id : Bytes) (w : World) → (reload env id w).1 ≡ w
unfolding reload
reload_same env id w = go (get_game env.reload_down id w.db)
  where
    go : (r : Result StoreError (Game × List StoredMove)) → (answer w r).1 ≡ w
    go (ok gm) = refl
    go (err e) = refl
