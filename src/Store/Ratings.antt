-- ===== src/Store/Ratings.antt =====
-- ApplyRatings of pkg/store/history.go. The rating columns of `games` are a list of their own: a game
-- without an entry has NULL there.
pub mod Ledger
use alekhines_counter_gambit.Analysis.Summary.{Floats}
use alekhines_counter_gambit.Base.{
  Bool, List, Option, [], false, if◌then◌else◌, none, some, true, ℕ, ◌&&◌, ◌++◌, ◌+◌, ◌||◌, ◌∷◌,
}
use alekhines_counter_gambit.Base.Int.{ℤ, ◌+ℤ◌}
use alekhines_counter_gambit.Base.Result.{Result, err, ok}
use alekhines_counter_gambit.Base.Text.{Bytes, bytes_eq}
use alekhines_counter_gambit.Rating.{RatingOutcome, rating_update}
use alekhines_counter_gambit.Store.{Db, GameRow, StoreError, database, is_in_progress_text}
use alekhines_counter_gambit.Store.Games.{find_row, text_or_empty}
use mathlib.Core.Bool.{not}

pub record Account : Type 0 where
  pub id : Bytes
  pub elo : ℤ

pub record Scored : Type 0 where
  pub game_id : Bytes
  pub white_id : Bytes
  pub black_id : Bytes
  pub white_elo : ℤ
  pub black_elo : ℤ
  pub white_delta : ℤ
  pub black_delta : ℤ

pub record RatingTables : Type 0 where
  pub accounts : List Account
  pub scored : List Scored

unfoldable pub is_scored : Bytes → List Scored → Bool
is_scored id [] = false
is_scored id (s ∷ scored) = bytes_eq s.game_id id || is_scored id scored

-- The row that is locked: rated, finished and not scored, with a Black player.
abbrev pub players_of : GameRow → Option Bytes → Option (Bytes × Bytes)
players_of row none = none
players_of row (some black_id) =
    if row.rated && not (is_in_progress_text row.status)
    then some (row.white_id, black_id)
    else none

abbrev pub lock_row : Option GameRow → Option (Bytes × Bytes)
lock_row none = none
lock_row (some row) = players_of row row.black_id

abbrev pub rateable : Bytes → Db → RatingTables → Option (Bytes × Bytes)
rateable id db t = if is_scored id t.scored then none else lock_row (find_row id db.games)

-- playerRating
abbrev pub plays : Bytes → GameRow → Bool
plays id row =
    (bytes_eq row.white_id id || bytes_eq (text_or_empty row.black_id) id)
    && not (is_in_progress_text row.status)

unfoldable pub count_games : Bytes → List GameRow → ℕ
count_games id [] = 0
count_games id (row ∷ rows) = (if plays id row then 1 else 0) + count_games id rows

unfoldable pub find_elo : Bytes → List Account → Option ℤ
find_elo id [] = none
find_elo id (a ∷ accounts) = elim (bytes_eq a.id id) [
  | true ↦ some a.elo
  | false ↦ find_elo id accounts
]

-- `UPDATE users SET elo = elo + $1 WHERE id = $2`
unfoldable pub add_elo : Bytes → ℤ → List Account → List Account
unfolding ◌+ℤ◌
add_elo id delta [] = []
add_elo id delta (a ∷ accounts) =
    (if bytes_eq a.id id then record a { elo = a.elo +ℤ delta } else a) ∷ add_elo id delta accounts

module _ (F : Floats) where
  -- What the transaction writes.
  abbrev pub rate : Bytes → RatingOutcome → Bytes × Bytes → ℤ → ℤ → Db → RatingTables → RatingTables
  rate id outcome (white_id, black_id) white_elo black_elo db t =
      let (white_delta, black_delta) =
        rating_update F white_elo black_elo outcome (count_games white_id db.games)
          (count_games black_id db.games) in
      record {
        accounts = add_elo black_id black_delta (add_elo white_id white_delta t.accounts);
        scored =
            t.scored
            ++ record {
              game_id = id;
              white_id = white_id;
              black_id = black_id;
              white_elo = white_elo;
              black_elo = black_elo;
              white_delta = white_delta;
              black_delta = black_delta;
            }
              ∷ [];
      }

  abbrev pub rate_players :
      Bytes
      → RatingOutcome
      → Bytes × Bytes
      → Option ℤ
      → Option ℤ
      → Db
      → RatingTables
      → Result StoreError (Bool × RatingTables)
  rate_players id outcome players none black_elo db t = err database
  rate_players id outcome players (some white_elo) none db t = err database
  rate_players id outcome players (some white_elo) (some black_elo) db t =
      ok (true, rate id outcome players white_elo black_elo db t)

  abbrev pub apply_locked :
      Bool
      → Bytes
      → RatingOutcome
      → Option (Bytes × Bytes)
      → Db
      → RatingTables
      → Result StoreError (Bool × RatingTables)
  apply_locked down id outcome none db t = ok (false, t)
  apply_locked true id outcome (some players) db t = err database
  apply_locked false id outcome (some players) db t =
      rate_players id outcome players (find_elo players.0 t.accounts)
        (find_elo players.1 t.accounts) db t

  -- ApplyRatings. When the first query fails it answers as when there is nothing to do; `down` is a failure
  -- of a later statement, behind which the transaction is rolled back.
  unfoldable pub apply_ratings :
      Bool
      → Bool
      → Bytes
      → RatingOutcome
      → Db
      → RatingTables
      → Result StoreError (Bool × RatingTables)
  unfolding is_scored find_row find_elo add_elo count_games rating_update
  apply_ratings query_down down id outcome db t =
      apply_locked down id outcome (if query_down then none else rateable id db t) db t

  -- Calls of ApplyRatings, one after the other, each with the games as they stand then.
  pub record RatingCall : Type 0 where
    pub query_down : Bool
    pub down : Bool
    pub game_id : Bytes
    pub outcome : RatingOutcome
    pub db : Db

  abbrev pub kept : RatingTables → Result StoreError (Bool × RatingTables) → RatingTables
  kept t (err e) = t
  kept t (ok (applied, t')) = t'

  unfoldable pub rate_games : List RatingCall → RatingTables → RatingTables
  unfolding apply_ratings
  rate_games [] t = t
  rate_games (c ∷ calls) t =
      rate_games calls (kept t (apply_ratings c.query_down c.down c.game_id c.outcome c.db t))
