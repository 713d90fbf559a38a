-- ===== src/Gameservice/Server/FreePly.antt =====
-- The next ply of a game is free, so AppendMove of pkg/store/store.go stores it, in the tables of
-- services/game-service/internal/server/server.go.
use alekhines_counter_gambit.Base.{
  Bool, Bool-cases, List, [], ap, arith, false, inl, inr, length, map, refl, some, suc, true, ℕ,
  ◌&&◌, ◌+◌, ◌<◌, ◌==◌, ◌||◌, ◌∙◌, ◌∷◌, ◌≡◌, ◌≤◌,
}
use alekhines_counter_gambit.Base.All.{All, All-first, All-rest, cons, nil}
use alekhines_counter_gambit.Base.Result.{ok}
use alekhines_counter_gambit.Base.Text.{Bytes, bytes_eq}
use alekhines_counter_gambit.Gameservice.Server.Consistent.{IsConsistent, announced_move}
use alekhines_counter_gambit.Gameservice.Server.Line.{IsLine}
use alekhines_counter_gambit.Store.{Db, GameRow, OutboxRow, StoredMove}
use alekhines_counter_gambit.Store.Games.{
  any_row, append_move, appended, find_row, has_id, has_ply, is_blocked, outbox_has_ply, rows_of,
}
use alekhines_counter_gambit.Store.Tables.{Numbered}
use mathlib.Core.Path.{subst}

Numbered-below :
    (n bound : ℕ) (ms : List StoredMove)
    → Numbered n ms
    → n + length ms ≤ bound
    → All (λ m. m.ply < bound) ms
Numbered-below n bound [] h le = nil
Numbered-below n bound (m ∷ ms) (h, hs) le =
    cons (omega (arith, h, le)) (Numbered-below (suc n) bound ms hs (omega (arith, le)))

has_ply_free :
    (id : Bytes) (ply : ℕ) (table : List (Bytes × StoredMove))
    → All (λ m. m.ply < ply) (rows_of id table)
    → has_ply id ply table ≡ false
unfolding has_ply rows_of
has_ply_free id ply [] h = refl
has_ply_free id ply ((g, m) ∷ table) h = elim (Bool-cases (bytes_eq g id)) [
  | inl e ↦
      let here : rows_of id ((g, m) ∷ table) ≡ m ∷ rows_of id table = rw (rows_of, e) refl in
      let below = subst (All (λ x. x.ply < ply)) here h in
      let lt = All-first below in
      let other : (m.ply == ply) ≡ false = ground (arith, lt) in
      rw (e, other) (has_ply_free id ply table (All-rest below))
  | inr e ↦
      let there : rows_of id ((g, m) ∷ table) ≡ rows_of id table = rw (rows_of, e) refl in
      rw e (has_ply_free id ply table (subst (All (λ x. x.ply < ply)) there h))
]

outbox_has_ply-announced :
    (id : Bytes) (ply : ℕ) (rows : List (OutboxRow × Bool))
    → outbox_has_ply id ply rows ≡ has_ply id ply (map announced_move rows)
unfolding outbox_has_ply has_ply
outbox_has_ply-announced id ply [] = refl
outbox_has_ply-announced id ply ((r, published) ∷ rows) =
    ap (λ b. (bytes_eq r.game_id id && r.ply == ply) || b) (outbox_has_ply-announced id ply rows)

pub any_row_found :
    (id : Bytes) (rows : List GameRow) {row : GameRow}
    → find_row id rows ≡ some row
    → any_row (has_id id) rows ≡ true
unfolding any_row find_row
any_row_found id [] h = absurd (cc)
any_row_found id (x ∷ rows) {row} h = elim (Bool-cases (has_id id x)) [
  | inl e ↦ rw e refl
  | inr e ↦ rw e (any_row_found id rows {row = row} (ground (arith, h, e)))
]

pub found_any_row :
    (id : Bytes) (rows : List GameRow)
    → any_row (has_id id) rows ≡ true
    → (row : GameRow) × (find_row id rows ≡ some row)
unfolding any_row find_row
found_any_row id [] h = absurd (cc)
found_any_row id (x ∷ rows) h = elim (Bool-cases (has_id id x)) [
  | inl e ↦ (x, rw (find_row, e) refl)
  | inr e ↦
      let (row, found) = found_any_row id rows (ground (arith, h, e)) in
      (row, rw (find_row, e) found)
]

-- The next ply of a game is free.
pub append_move-ok :
    (id : Bytes) (db : Db) (m : StoredMove) (status end_reason : Bytes) (ended : Bool)
    → IsConsistent db
    → IsLine (rows_of id db.moves)
    → m.ply ≡ length (rows_of id db.moves) + 1
    → any_row (has_id id) db.games ≡ true
    → append_move false id m status end_reason ended db
      ≡ ok (appended id m status end_reason ended db)
unfolding append_move is_blocked
append_move-ok id db m status end_reason ended c l e known =
    let free : has_ply id m.ply db.moves ≡ false =
      has_ply_free id m.ply db.moves
        (Numbered-below 1 m.ply (rows_of id db.moves) l.numbered (omega (arith, e))) in
    let announced : outbox_has_ply id m.ply db.outbox ≡ false =
      outbox_has_ply-announced id m.ply db.outbox ∙ ap (has_ply id m.ply) c.announced ∙ free in
    rw (known, free, announced) refl
