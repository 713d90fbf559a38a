-- ===== src/Store.antt =====
-- The tables that pkg/store keeps in Postgres, and the Go values that its queries return:
-- pkg/store/store.go and pkg/store/outbox.go. A statement has the effect that its SQL says.
pub mod Games
pub mod Tables
pub mod Lookup
pub mod Outbox
pub mod Ratings
use alekhines_counter_gambit.Base.{Bool, List, Option, ℕ}
use alekhines_counter_gambit.Base.Int.{ℤ}
use alekhines_counter_gambit.Base.Text.{Bytes, bytes_eq, codes}

-- A row of `games`; `none` is NULL. Times are the database's clock.
pub record GameRow : Type 0 where
  pub id : Bytes
  pub white_id : Bytes
  pub black_id : Option Bytes
  pub status : Bytes
  pub end_reason : Option Bytes
  pub fen : Bytes
  pub engine_depth : ℤ
  pub vs_engine : Bool
  pub rated : Bool
  pub initial_ms : ℤ
  pub increment_ms : ℤ
  pub started_at : ℕ
  pub ended_at : Option ℕ

-- Game
pub record Game : Type 0 where
  pub id : Bytes
  pub white_id : Bytes
  pub black_id : Bytes
  pub vs_engine : Bool
  pub status : Bytes
  pub end_reason : Bytes
  pub fen : Bytes
  pub engine_depth : ℤ
  pub rated : Bool
  pub initial_ms : ℤ
  pub increment_ms : ℤ
  pub awaiting_opponent : Bool
  pub started_at : ℕ
  pub ended_at : Option ℕ

-- Move
pub record StoredMove : Type 0 where
  pub ply : ℕ
  pub uci : Bytes
  pub fen_after : Bytes

pub record OutboxRow : Type 0 where
  pub id : ℕ
  pub game_id : Bytes
  pub ply : ℕ
  pub uci : Bytes
  pub fen_after : Bytes
  pub status : Bytes
  pub end_reason : Bytes
  pub ended : Bool

-- A row of `moves` has its game's id beside it, a row of `move_outbox` whether `published_at` is set.
pub record Db : Type 0 where
  pub games : List GameRow
  pub moves : List (Bytes × StoredMove)
  pub outbox : List (OutboxRow × Bool)
  pub next_outbox_id : ℕ
  pub now : ℕ

-- ErrNotFound, ErrSeatUnavailable, ErrNotInProgress, and any error of the driver.
pub data StoreError : Type 0 where
  not_found seat_unavailable not_in_progress database : StoreError

abbrev pub in_progress_text : Bytes
in_progress_text = codes "IN_PROGRESS"

abbrev pub is_in_progress_text : Bytes → Bool
is_in_progress_text s = bytes_eq s in_progress_text
