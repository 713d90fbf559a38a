-- ===== src/Engine/Client/Coherent.antt =====
-- The cache changes no answer: pkg/engine/client.go.
use alekhines_counter_gambit.Base.{
  &&-left, &&-right, ==_iff, Bool, Bool-cases, List, Option, [], ap, arith, false, if◌then◌else◌,
  inl, inr, none, refl, some, sym, true, ℕ, ◌&&◌, ◌==◌, ◌∙◌, ◌∷◌, ◌≡◌,
}
use alekhines_counter_gambit.Base.All.{All, cons, nil}
use alekhines_counter_gambit.Base.Int.{to_uint32, ℤ}
use alekhines_counter_gambit.Base.Text.{Bytes, bytes_eq}
use alekhines_counter_gambit.Base.Text.Words.{bytes_eq-≡}
use alekhines_counter_gambit.Chess.Fen.Print.{fen}
use alekhines_counter_gambit.Engine.Client.{
  CacheEntry, CacheState, ClientCall, Workers, cache_get, client_analyze, client_calls, depth_given,
  fetched, is_cacheable, looked_up, worker_analyze,
}
use alekhines_counter_gambit.Engine.Uci.{SearchResult}
use mathlib.Core.Bool.{not}

-- What the cache holds is what a search without the book answers.
abbrev pub IsCoherent : Workers → List CacheEntry → Type 0
IsCoherent s cache = All (λ (f, d, e). worker_analyze s f d false ≡ some e) cache

cache_get_lem :
    (s : Workers) (fen : Bytes) (depth : ℕ) (cache : List CacheEntry) (e : SearchResult)
    → IsCoherent s cache
    → cache_get fen depth cache ≡ some e
    → worker_analyze s fen depth false ≡ some e
unfolding cache_get
cache_get_lem s fen depth [] e nil h = absurd (cc)
cache_get_lem s fen depth ((f, d, x) ∷ cache) e (cons p ps) h =
    elim (Bool-cases (bytes_eq f fen && d == depth)) [
      | inl t ↦
          let same_fen = bytes_eq-≡ f fen (&&-left (bytes_eq f fen) (d == depth) t) in
          let same_depth : d ≡ depth =
            (==_iff d depth).0 (&&-right (bytes_eq f fen) (d == depth) t) in
          ap (λ f'. worker_analyze s f' depth false) (sym same_fen)
          ∙ ap (λ d'. worker_analyze s f d' false) (sym same_depth)
          ∙ p
          ∙ ground (arith, h, t)
      | inr t ↦ cache_get_lem s fen depth cache e ps (ground (arith, h, t))
    ]

module _ (s : Workers) (c : CacheState) (fen : Bytes) (depth : ℤ) (cache : List CacheEntry)
    (i : IsCoherent s cache) where
  fetched-IsCoherent :
      (use_book keeps : Bool) (r : Option SearchResult)
      → (keeps ≡ true → use_book ≡ false)
      → worker_analyze s fen (to_uint32 depth) use_book ≡ r
      → IsCoherent s (fetched keeps fen (to_uint32 depth) cache r).1
  fetched-IsCoherent use_book keeps none h e = i
  fetched-IsCoherent use_book false (some r) h e = i
  fetched-IsCoherent use_book true (some r) h e =
      cons (ap (worker_analyze s fen (to_uint32 depth)) (sym (h refl)) ∙ e) i

  no_book :
      (use_book given enabled writable : Bool)
      → ((not use_book && (given && enabled)) && writable) ≡ true
      → use_book ≡ false
  no_book true given enabled writable h = absurd (cc)
  no_book false given enabled writable h = refl

  analyze-IsCoherent :
      (use_book : Bool) → IsCoherent s (client_analyze s c fen depth use_book cache).1
  unfolding client_analyze
  analyze-IsCoherent use_book = go (
      if is_cacheable c.enabled depth use_book && c.readable
      then cache_get fen (to_uint32 depth) cache
      else none)
    where
      go : (hit : Option SearchResult) → IsCoherent s (looked_up s c fen depth use_book cache hit).1
      go (some e) = i
      go none =
          fetched-IsCoherent use_book (is_cacheable c.enabled depth use_book && c.writable) _
            (no_book use_book (depth_given depth) c.enabled c.writable) refl

  fetched_answer :
      (keeps : Bool) (r : Option SearchResult) → (fetched keeps fen (to_uint32 depth) cache r).0 ≡ r
  fetched_answer keeps none = refl
  fetched_answer keeps (some r) = refl

  analyze_answer :
      (client_analyze s c fen depth false cache).0 ≡ worker_analyze s fen (to_uint32 depth) false
  unfolding client_analyze
  analyze_answer = elim (Bool-cases (is_cacheable c.enabled depth false && c.readable)) [
    | inl t ↦ rw t (go (cache_get fen (to_uint32 depth) cache) refl)
    | inr t ↦ rw t (fetched_answer _ _)
  ]
    where
      go :
          (hit : Option SearchResult)
          → cache_get fen (to_uint32 depth) cache ≡ hit
          → (looked_up s c fen depth false cache hit).0
            ≡ worker_analyze s fen (to_uint32 depth) false
      go none h = fetched_answer _ _
      go (some e) h = sym (cache_get_lem s fen (to_uint32 depth) cache e i h)

client_calls-IsCoherent :
    (s : Workers) (calls : List ClientCall) (cache : List CacheEntry)
    → IsCoherent s cache
    → IsCoherent s (client_calls s calls cache)
unfolding client_calls
client_calls-IsCoherent s [] cache i = i
client_calls-IsCoherent s (c ∷ calls) cache i =
    client_calls-IsCoherent s calls (client_analyze s c.state c.fen c.depth c.use_book cache).1
      (analyze-IsCoherent s c.state c.fen c.depth cache i c.use_book)

-- After any calls of Analyze and of BestMove, which may use the opening book, with the cache enabled or
-- not and failing at any time, Analyze answers what the worker's search without the book answers.
pub client_analyze-worker_analyze :
    (s : Workers) (calls : List ClientCall) (c : CacheState) (fen : Bytes) (depth : ℤ)
    → (client_analyze s c fen depth false (client_calls s calls [])).0
      ≡ worker_analyze s fen (to_uint32 depth) false
client_analyze-worker_analyze s calls c fen depth =
    analyze_answer s c fen depth (client_calls s calls []) (client_calls-IsCoherent s calls [] nil)
