-- ===== src/Gameservice/Server/Consistent.antt =====
-- The tables of the game service stay consistent: services/game-service/internal/server/server.go
-- over pkg/store/store.go.
use alekhines_counter_gambit.Base.{
  Bool, List, [], ap, arith, false, length, map, refl, sym, true, ℕ, ◌++◌, ◌+◌, ◌<◌, ◌∙◌, ◌∷◌, ◌≡◌,
}
use alekhines_counter_gambit.Base.All.{All, All-append, All-map, All-one}
use alekhines_counter_gambit.Base.Decimal.{max_int}
use alekhines_counter_gambit.Base.Result.{ok}
use alekhines_counter_gambit.Base.Text.{Bytes}
use alekhines_counter_gambit.Base.Text.Words.{bytes_eq-≡}
use alekhines_counter_gambit.Chess.Board.{Board}
use alekhines_counter_gambit.Chess.Fen.Parse.{start_fen}
use alekhines_counter_gambit.Chess.Fen.Print.{fen}
use alekhines_counter_gambit.Chess.Legal.{apply_uci}
use alekhines_counter_gambit.Gameservice.Server.Line.{
  IsLine, IsLine-append, IsLine-nil, next_move, start_board_fen,
}
use alekhines_counter_gambit.Store.{Db, GameRow, OutboxRow, StoredMove}
use alekhines_counter_gambit.Store.Games.{
  any_row, appended, has_id, rows_of, set_position, update_where,
}
use alekhines_counter_gambit.Store.Outbox.{Ascending, Ascending-append}
use alekhines_counter_gambit.Store.Tables.{
  All-update_where, any_row-append, any_row-update_where, bytes_eq_flip, length-rows_of,
  rows_of-append_other, rows_of-append_same, rows_of-nil,
}
use mathlib.Core.List.{map-append}
use mathlib.Core.Path.{subst}

-- The stored position of a game is the one that its stored moves reach.
pub record IsStored (moves : List StoredMove) (row : GameRow) : Type 0 where
  pub line : IsLine moves
  pub position : row.fen ≡ fen line.board

-- The move that a row of the outbox announces.
abbrev pub announced_move : OutboxRow × Bool → Bytes × StoredMove
announced_move (r, published) =
    (r.game_id, record { ply = r.ply; uci = r.uci; fen_after = r.fen_after })

-- Every game is stored so, every move belongs to a game, and the outbox announces every move once, in
-- the order of the moves, under ascending ids.
pub record IsConsistent (db : Db) : Type 0 where
  pub games : All (λ row. IsStored (rows_of row.id db.moves) row) db.games
  pub owners : All (λ gm. any_row (has_id gm.0) db.games ≡ true) db.moves
  pub announced : map announced_move db.outbox ≡ db.moves
  pub ascending : Ascending 0 db.outbox db.next_outbox_id

pub set_position_id :
    (m : StoredMove) (status end_reason : Bytes) (ended : Bool) (now : ℕ) (row : GameRow)
    → (set_position m status end_reason ended now row).id ≡ row.id
set_position_id m status end_reason true now row = refl
set_position_id m status end_reason false now row = refl

set_position_fen :
    (m : StoredMove) (status end_reason : Bytes) (ended : Bool) (now : ℕ) (row : GameRow)
    → (set_position m status end_reason ended now row).fen ≡ m.fen_after
set_position_fen m status end_reason true now row = refl
set_position_fen m status end_reason false now row = refl

module _ (id uci status end_reason : Bytes) (ended : Bool) (after : Board) (db : Db)
    (c : IsConsistent db) (l : IsLine (rows_of id db.moves)) (small : length db.moves + 1 < max_int)
    (e : apply_uci l.board uci ≡ ok after) where
  abbrev pub new_move : StoredMove
  new_move = next_move (rows_of id db.moves) uci after

  -- The line of the game with the new move.
  pub longer : (k : IsLine (rows_of id (db.moves ++ (id, new_move) ∷ []))) × (k.board ≡ after)
  longer =
      subst (λ ms. (k : IsLine ms) × (k.board ≡ after))
        (sym (rows_of-append_same id db.moves new_move))
        (IsLine-append (rows_of id db.moves) uci after l (omega (arith, length-rows_of id db.moves))
          e)

  row_moved :
      (row : GameRow)
      → has_id id row ≡ true
      → IsStored
          (rows_of row.id (db.moves ++ (id, new_move) ∷ []))
          (set_position new_move status end_reason ended db.now row)
  row_moved row h =
      let (k, kb) = longer in
      subst
        (λ i.
          IsStored (rows_of i (db.moves ++ (id, new_move) ∷ []))
            (set_position new_move status end_reason ended db.now row))
        (sym (bytes_eq-≡ row.id id h))
        (record {
          line = k;
          position = set_position_fen new_move status end_reason ended db.now row ∙ ap fen (sym kb);
        })

  row_kept :
      (row : GameRow)
      → has_id id row ≡ false
      → IsStored (rows_of row.id db.moves) row
      → IsStored (rows_of row.id (db.moves ++ (id, new_move) ∷ [])) row
  row_kept row h p =
      subst (λ ms. IsStored ms row)
        (sym (rows_of-append_other row.id id db.moves new_move (bytes_eq_flip row.id id h))) p

  -- A new move of game `id` behind its stored ones.
  pub appended-IsConsistent :
      any_row (has_id id) db.games ≡ true
      → IsConsistent (appended id new_move status end_reason ended db)
  appended-IsConsistent known =
      let change = set_position new_move status end_reason ended db.now in
      let same = λ (row : GameRow). set_position_id new_move status end_reason ended db.now row in
      record {
        games =
            All-update_where (has_id id) change db.games
              (λ row h p.
                subst (λ i. IsStored (rows_of i (db.moves ++ (id, new_move) ∷ [])) (change row))
                  (sym (same row)) (row_moved row h))
              row_kept c.games;
        owners =
            All-append
              (All-map (λ gm h. any_row-update_where gm.0 (has_id id) change db.games same ∙ h)
                c.owners)
              (All-one (any_row-update_where id (has_id id) change db.games same ∙ known));
        announced =
            map-append announced_move db.outbox _
            ∙ ap (λ ms. ms ++ (id, new_move) ∷ []) c.announced;
        ascending = Ascending-append 0 db.outbox db.next_outbox_id _ false refl c.ascending;
      }

-- An update of game rows that keeps their ids and their positions.
pub update_where-IsConsistent :
    (test : GameRow → Bool) (change : GameRow → GameRow) (db : Db)
    → ((row : GameRow) → (change row).id ≡ row.id)
    → ((row : GameRow) → (change row).fen ≡ row.fen)
    → IsConsistent db
    → IsConsistent (record db { games = update_where test change db.games })
update_where-IsConsistent test change db ids fens c = record {
  games =
      All-update_where test change db.games
        (λ row h p.
          subst (λ i. IsStored (rows_of i db.moves) (change row)) (sym (ids row))
            (record { line = p.line; position = fens row ∙ p.position }))
        (λ row h p. p) c.games;
  owners = All-map (λ gm h. any_row-update_where gm.0 test change db.games ids ∙ h) c.owners;
  announced = c.announced;
  ascending = c.ascending;
}

-- A new game without moves.
pub created-IsConsistent :
    (row : GameRow) (db : Db)
    → row.fen ≡ start_fen
    → any_row (has_id row.id) db.games ≡ false
    → IsConsistent db
    → IsConsistent (record db { games = db.games ++ row ∷ [] })
created-IsConsistent row db e fresh c = record {
  games = All-append c.games (
      All-one (
        subst (λ ms. IsStored ms row) (sym (rows_of-nil row.id db.games db.moves c.owners fresh))
          (record { line = IsLine-nil; position = e ∙ start_board_fen })));
  owners = All-map (λ gm h. any_row-append (has_id gm.0) db.games row h) c.owners;
  announced = c.announced;
  ascending = c.ascending;
}
