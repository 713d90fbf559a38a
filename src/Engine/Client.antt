-- ===== src/Engine/Client.antt =====
-- The client of the engine workers with its cache: pkg/engine/client.go, and the server that it calls,
-- services/engine-worker/internal/server/server.go.
pub mod Coherent
use alekhines_counter_gambit.Base.{
  Bool, List, Option, [], false, if◌then◌else◌, ltb, none, some, true, ℕ, ◌&&◌, ◌==◌, ◌∷◌,
}
use alekhines_counter_gambit.Base.Int.{negsuc, pos, to_uint32, ℤ}
use alekhines_counter_gambit.Base.Text.{Bytes, bytes_eq}
use alekhines_counter_gambit.Chess.Fen.Print.{fen}
use alekhines_counter_gambit.Engine.Uci.{SearchResult, no_result}
use alekhines_counter_gambit.Store.Games.{is_empty_text}
use mathlib.Core.Bool.{not}

-- The engine's verdict as the client returns it: redisx.Eval.
abbrev pub CacheEntry : Type 0
CacheEntry = Bytes × ℕ × SearchResult

-- EvalCache of pkg/redisx/evalcache.go: what has been put, the last first. Its keys spell the depth and
-- the position, from which both can be read back.
unfoldable pub cache_get : Bytes → ℕ → List CacheEntry → Option SearchResult
cache_get fen depth [] = none
cache_get fen depth ((f, d, e) ∷ entries) = elim (bytes_eq f fen && d == depth) [
  | true ↦ some e
  | false ↦ cache_get fen depth entries
]

-- The worker: a move of the book, and a search, of which the client assumes that it depends on the
-- position and the depth only.
pub record Workers : Type 0 where
  pub book : Bytes → Option Bytes
  pub search : Bytes → ℕ → Option SearchResult

-- The worker's Analyze.
abbrev pub book_or_search : Workers → Bytes → ℕ → Option Bytes → Option SearchResult
book_or_search s fen depth (some move) = some (record no_result { best_move = move })
book_or_search s fen depth none = s.search fen depth

unfoldable pub worker_analyze : Workers → Bytes → ℕ → Bool → Option SearchResult
worker_analyze s fen depth use_book =
    if is_empty_text fen
    then none
    else book_or_search s fen depth (if use_book then s.book fen else none)

abbrev pub depth_given : ℤ → Bool
depth_given (pos n) = ltb 0 n
depth_given (negsuc n) = false

abbrev pub is_cacheable : Bool → ℤ → Bool → Bool
is_cacheable enabled depth use_book = not use_book && (depth_given depth && enabled)

-- Client.analyze behind the look into the cache: the call, and what it puts into the cache if that can be
-- written.
abbrev pub fetched :
    Bool → Bytes → ℕ → List CacheEntry → Option SearchResult → Option SearchResult × List CacheEntry
fetched keeps fen depth cache none = (none, cache)
fetched keeps fen depth cache (some e) = (some e, if keeps then (fen, depth, e) ∷ cache else cache)

-- How the cache is reached in one call.
pub record CacheState : Type 0 where
  pub enabled : Bool
  pub readable : Bool
  pub writable : Bool

abbrev pub looked_up :
    Workers
    → CacheState
    → Bytes
    → ℤ
    → Bool
    → List CacheEntry
    → Option SearchResult
    → Option SearchResult × List CacheEntry
looked_up s c fen depth use_book cache (some e) = (some e, cache)
looked_up s c fen depth use_book cache none =
    fetched (is_cacheable c.enabled depth use_book && c.writable) fen (to_uint32 depth) cache
      (worker_analyze s fen (to_uint32 depth) use_book)

-- Client.analyze
unfoldable pub client_analyze :
    Workers
    → CacheState
    → Bytes
    → ℤ
    → Bool
    → List CacheEntry
    → Option SearchResult × List CacheEntry
unfolding cache_get worker_analyze to_uint32
client_analyze s c fen depth use_book cache = looked_up s c fen depth use_book cache (
    if is_cacheable c.enabled depth use_book && c.readable
    then cache_get fen (to_uint32 depth) cache
    else none)

-- One call of Analyze or BestMove after another.
pub record ClientCall : Type 0 where
  pub state : CacheState
  pub fen : Bytes
  pub depth : ℤ
  pub use_book : Bool

unfoldable pub client_calls : Workers → List ClientCall → List CacheEntry → List CacheEntry
unfolding client_analyze
client_calls s [] cache = cache
client_calls s (c ∷ calls) cache =
    client_calls s calls (client_analyze s c.state c.fen c.depth c.use_book cache).1
