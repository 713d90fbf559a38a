-- ===== src/Gameservice/Server/Calls.antt =====
-- The calls that the game service answers, one after the other: what CreateGame, JoinGame, Resign and
-- SubmitMove of services/game-service/internal/server/server.go do to the tables.
use alekhines_counter_gambit.Base.{
  Bool, Bool-cases, List, Option, [], ap, arith, elim_cases, false, if◌then◌else◌, inl, inr, length,
  none, refl, some, sym, true, ℕ, ◌&&◌, ◌*◌, ◌+◌, ◌<◌, ◌||◌, ◌∷◌, ◌≡◌,
}
use alekhines_counter_gambit.Base.All.{nil}
use alekhines_counter_gambit.Base.Decimal.{max_int}
use alekhines_counter_gambit.Base.Result.{Result, err, ok, ok-injective}
use alekhines_counter_gambit.Base.Text.{Bytes, codes}
use alekhines_counter_gambit.Chess.Fen.Parse.{start_fen}
use alekhines_counter_gambit.Chess.Outcome.{GameResult}
use alekhines_counter_gambit.Gameservice.Mapping.{result_to_db}
use alekhines_counter_gambit.Gameservice.Server.{Env, World, invalid_argument}
use alekhines_counter_gambit.Gameservice.Server.Consistent.{
  IsConsistent, created-IsConsistent, update_where-IsConsistent,
}
use alekhines_counter_gambit.Gameservice.Server.Handlers.{Answer, MoveRequest, refuse, submit_move}
use alekhines_counter_gambit.Gameservice.Server.Position.{reload_same}
use alekhines_counter_gambit.Gameservice.Server.Seats.{
  CreateRequest, PlayerRequest, create_for, create_stored, handle_create, handle_join,
  handle_resign, join_answer, join_stored, resign_closed, resign_judged, resign_loaded,
  winner_against,
}
use alekhines_counter_gambit.Gameservice.Server.Submit.{IsWithin, submit_move-IsWithin}
use alekhines_counter_gambit.Store.{Db, Game, StoreError, StoredMove}
use alekhines_counter_gambit.Store.Games.{
  CreateGameParams, any_row, close_row, create_game, end_game, get_game, has_id, is_empty_text,
  is_endable, is_joinable, join_game, joined_game, take_seat, update_where,
}
use mathlib.Core.Bool.{not}
use mathlib.Core.Path.{subst}

pub data Call : Type 0 where
  create_call : CreateRequest → Call
  join_call : PlayerRequest → Call
  submit_call : MoveRequest → Call
  resign_call : PlayerRequest → Call

unfoldable pub run_call : Env → Call → World → World
unfolding handle_create handle_join submit_move handle_resign
run_call env (create_call req) w = (handle_create env req w).1
run_call env (join_call req) w = (handle_join env req w).1
run_call env (submit_call req) w = (submit_move env req w).1
run_call env (resign_call req) w = (handle_resign env req w).1

-- Calls in the order of their transactions, each with what the services around it answer.
unfoldable pub serve : List (Env × Call) → World → World
unfolding run_call
serve [] w = w
serve ((env, call) ∷ calls) w = serve calls (run_call env call w)

-- The service over empty tables.
abbrev pub empty_world : World
empty_world = record {
  db = record { games = []; moves = []; outbox = []; next_outbox_id = 1; now = 0 };
  effects = [];
}

-- The tables that a handler leaves.

pub create_stored_db :
    (env : Env) (w : World) (g : Game) (db : Db) → (create_stored env w (ok (g, db))).1.db ≡ db
create_stored_db env w g db =
    elim (Bool-cases
      ((not g.vs_engine && (not g.awaiting_opponent && env.session_enabled)) && env.session_down)) [
        | inl e ↦ rw e refl
        | inr e ↦ rw e refl
      ]

join_answer_same :
    (g : Game) (w : World) (r : Result StoreError (Game × List StoredMove))
    → (join_answer g w r).1 ≡ w
join_answer_same g w (ok gm) = refl
join_answer_same g w (err e) = refl

pub join_stored_db :
    (env : Env) (w : World) (r : Result StoreError Game × Db) → (join_stored env w r).1.db ≡ r.1
join_stored_db env w (err e, db) = refl
join_stored_db env w (ok g, db) =
    ap (λ v. v.db) (join_answer_same g _ (get_game env.reload_down g.id db))

pub joined_game_db :
    (db : Db) (r : Result StoreError (Game × List StoredMove)) → (joined_game db r).1 ≡ db
joined_game_db db (ok gm) = refl
joined_game_db db (err e) = refl

module _ (bound : ℕ) (env : Env) (w : World) (i : IsWithin bound w.db) where
  create_game-IsWithin :
      (id : Option Bytes) (p : CreateGameParams) (down : Bool)
      → p.start_fen ≡ start_fen
      → IsWithin bound (create_stored env w (create_game down id p w.db)).1.db
  unfolding create_game
  create_game-IsWithin none p down e = i
  create_game-IsWithin (some id) p true e = i
  create_game-IsWithin (some id) p false e = elim (Bool-cases (any_row (has_id id) w.db.games)) [
    | inl h ↦ rw h i
    | inr h ↦
        rw (h, create_stored_db)
          (record { consistent = created-IsConsistent _ w.db e h i.consistent; few = i.few })
  ]

  handle_create-IsWithin : (req : CreateRequest) → IsWithin bound (handle_create env req w).1.db
  unfolding handle_create
  handle_create-IsWithin req =
      go (if is_empty_text req.white_id then env.guest else some req.white_id)
    where
      go : (white : Option Bytes) → IsWithin bound (create_for env req w white).1.db
      go none = i
      go (some id) = create_game-IsWithin env.uuid _ env.write_down refl

  join_game-IsWithin :
      (down reload_down : Bool) (game_id player_id : Bytes)
      → IsWithin bound (join_game down reload_down game_id player_id w.db).1
  unfolding join_game
  join_game-IsWithin true reload_down game_id player_id = i
  join_game-IsWithin false reload_down game_id player_id =
      elim (Bool-cases (any_row (is_joinable game_id player_id) w.db.games)) [
        | inl e ↦
            rw (e, joined_game_db)
              (record {
                consistent =
                    update_where-IsConsistent (is_joinable game_id player_id) (take_seat player_id)
                      w.db (λ row. refl) (λ row. refl) i.consistent;
                few = i.few;
              })
        | inr e ↦ rw e i
      ]

  handle_join-IsWithin : (req : PlayerRequest) → IsWithin bound (handle_join env req w).1.db
  unfolding handle_join
  handle_join-IsWithin req =
      elim_cases (λ (x : Answer). IsWithin bound x.1.db)
        (is_empty_text req.game_id || is_empty_text req.player_id) (refuse invalid_argument w)
        (join_stored env w (join_game env.write_down env.load_down req.game_id req.player_id w.db))
        (λ e. i)
        (λ e.
          subst (IsWithin bound) (sym (join_stored_db env w _))
            (join_game-IsWithin env.write_down env.load_down req.game_id req.player_id))

  end_game-IsWithin :
      (down : Bool) (id status end_reason : Bytes) (db : Db)
      → end_game down id status end_reason w.db ≡ ok db
      → IsWithin bound db
  unfolding end_game
  end_game-IsWithin true id status end_reason db h = absurd (cc)
  end_game-IsWithin false id status end_reason db h =
      elim (Bool-cases (any_row (is_endable id) w.db.games)) [
        | inl e ↦
            let change = close_row status end_reason w.db.now in
            let closed = record (w.db) { games = update_where (is_endable id) change w.db.games } in
            let same : closed ≡ db =
              ok-injective {E = StoreError} closed db (ground (arith, h, e)) in
            subst (IsWithin bound) same (record {
              consistent =
                  update_where-IsConsistent (is_endable id) change w.db (λ row. refl) (λ row. refl)
                    i.consistent;
              few = i.few;
            })
        | inr e ↦ absurd (ground (arith, h, e))
      ]

  resign_closed-IsWithin :
      (req : PlayerRequest) (g : Game) (winner : GameResult) (r : Result StoreError Db)
      → ((db : Db) → r ≡ ok db → IsWithin bound db)
      → IsWithin bound (resign_closed env req g winner w r).1.db
  resign_closed-IsWithin req g winner (err e) h = i
  resign_closed-IsWithin req g winner (ok db) h =
      subst (λ v. IsWithin bound v.db) (sym (reload_same env g.id _)) (h db refl)

  resign_judged-IsWithin :
      (req : PlayerRequest) (g : Game) (winner : Option GameResult)
      → IsWithin bound (resign_judged env req g w winner).1.db
  resign_judged-IsWithin req g none = i
  resign_judged-IsWithin req g (some winner) =
      resign_closed-IsWithin req g winner _
        (end_game-IsWithin env.write_down g.id (result_to_db winner) (codes "RESIGNATION"))

  handle_resign-IsWithin : (req : PlayerRequest) → IsWithin bound (handle_resign env req w).1.db
  unfolding handle_resign
  handle_resign-IsWithin req =
      elim_cases (λ (x : Answer). IsWithin bound x.1.db)
        (is_empty_text req.game_id || is_empty_text req.player_id) (refuse invalid_argument w)
        (resign_loaded env req w (get_game env.load_down req.game_id w.db)) (λ e. i)
        (λ e. go (get_game env.load_down req.game_id w.db))
    where
      go :
          (r : Result StoreError (Game × List StoredMove))
          → IsWithin bound (resign_loaded env req w r).1.db
      go (err e) = i
      go (ok (g, moves)) = resign_judged-IsWithin req g (winner_against g req.player_id)

run_call-IsWithin :
    (bound : ℕ) (env : Env) (call : Call) (w : World)
    → bound + 2 < max_int
    → IsWithin bound w.db
    → IsWithin (bound + 2) (run_call env call w).db
unfolding run_call
run_call-IsWithin bound env call w fits i = go call
  where
    wider : IsWithin (bound + 2) w.db
    wider = record { consistent = i.consistent; few = omega (arith, i.few) }

    go : (c : Call) → IsWithin (bound + 2) (run_call env c w).db
    go (create_call req) = handle_create-IsWithin (bound + 2) env w wider req
    go (join_call req) = handle_join-IsWithin (bound + 2) env w wider req
    go (submit_call req) =
        submit_move-IsWithin (bound + 2) fits env req w (omega (arith, i.few)) i.consistent
    go (resign_call req) = handle_resign-IsWithin (bound + 2) env w wider req

serve-IsWithin :
    (bound : ℕ) (calls : List (Env × Call)) (w : World)
    → bound + 2 * length calls < max_int
    → IsWithin bound w.db
    → IsWithin (bound + 2 * length calls) (serve calls w).db
unfolding serve
serve-IsWithin bound [] w fits i = subst (λ n. IsWithin n w.db) (omega arith) i
serve-IsWithin bound ((env, call) ∷ calls) w fits i =
    subst (λ n. IsWithin n (serve calls (run_call env call w)).db) (omega arith)
      (serve-IsWithin (bound + 2) calls (run_call env call w) (omega (arith, fits))
        (run_call-IsWithin bound env call w (omega (arith, fits)) i))

-- Whatever calls of CreateGame, JoinGame, SubmitMove and Resign the service has answered since its
-- tables were empty, and whichever of them failed at whatever step: every game's stored position is the
-- one that its stored moves reach from the start, each of them legal, numbered from 1 and stored with
-- the FEN after it; every move has a game; and the outbox announces each move once, in order. The calls
-- are fewer than half of what an int counts.
pub serve-IsConsistent :
    (calls : List (Env × Call))
    → 2 * length calls < max_int
    → IsConsistent (serve calls empty_world).db
serve-IsConsistent calls fits =
    (serve-IsWithin 0 calls empty_world (omega (arith, fits)) empty_world-IsWithin).consistent
  where
    empty_world-IsWithin : IsWithin 0 empty_world.db
    empty_world-IsWithin = record {
      consistent = record { games = nil; owners = nil; announced = refl; ascending = omega arith };
      few = omega arith;
    }
