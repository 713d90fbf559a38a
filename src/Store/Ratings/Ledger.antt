-- ===== src/Store/Ratings/Ledger.antt =====
-- Ratings are scored once, and add up: ApplyRatings of pkg/store/history.go.
use alekhines_counter_gambit.Analysis.Summary.{Floats}
use alekhines_counter_gambit.Base.{
  Bool, Bool-cases, List, Option, [], ap, arith, false, if◌then◌else◌, inl, inr, none, refl, some,
  sym, true, ◌++◌, ◌∙◌, ◌∷◌, ◌≡◌,
}
use alekhines_counter_gambit.Base.All.{All, cons, nil}
use alekhines_counter_gambit.Base.Int.{pos, ℤ, ◌+ℤ◌}
use alekhines_counter_gambit.Base.Text.{Bytes, bytes_eq}
use alekhines_counter_gambit.Chess.Outcome.{outcome}
use alekhines_counter_gambit.Rating.{RatingOutcome}
use alekhines_counter_gambit.Store.{Db}
use alekhines_counter_gambit.Store.Ratings.{
  Account, RatingCall, RatingTables, Scored, add_elo, apply_locked, apply_ratings, find_elo,
  is_scored, kept, rate_games, rate_players, rateable,
}
use alekhines_counter_gambit.Store.Tables.{bytes_eq_flip}
use mathlib.Core.List.{append_assoc}
use mathlib.Core.Path.{subst}

-- The deltas that the scored games record for a player, in the order of scoring.
abbrev pub deltas_for : Bytes → List Scored → List ℤ
deltas_for id [] = []
deltas_for id (s ∷ scored) =
    (if bytes_eq id s.white_id then s.white_delta ∷ [] else [])
    ++ ((if bytes_eq id s.black_id then s.black_delta ∷ [] else []) ++ deltas_for id scored)

abbrev pub total : ℤ → List ℤ → ℤ
total start [] = start
total start (d ∷ ds) = total (start +ℤ d) ds

-- A game is scored once.
abbrev pub Distinct : List Scored → Type 0
Distinct [] = Unit {0}
Distinct (s ∷ scored) = (is_scored s.game_id scored ≡ false) × Distinct scored

-- Every rating is the one that an account starts on and the deltas of the player's games since then.
pub record IsLedger (t : RatingTables) : Type 0 where
  pub ratings : All (λ a. a.elo ≡ total (pos 1200) (deltas_for a.id t.scored)) t.accounts
  pub once : Distinct t.scored

total-append : (start : ℤ) (xs ys : List ℤ) → total start (xs ++ ys) ≡ total (total start xs) ys
total-append start [] ys = refl
total-append start (x ∷ xs) ys = total-append (start +ℤ x) xs ys

deltas_for-append :
    (id : Bytes) (xs ys : List Scored)
    → deltas_for id (xs ++ ys) ≡ deltas_for id xs ++ deltas_for id ys
deltas_for-append id [] ys = refl
deltas_for-append id (x ∷ xs) ys =
    let of_white = if bytes_eq id x.white_id then x.white_delta ∷ [] else [] in
    let of_black = if bytes_eq id x.black_id then x.black_delta ∷ [] else [] in
    ap (λ ds. of_white ++ (of_black ++ ds)) (deltas_for-append id xs ys)
    ∙ ap (λ ds. of_white ++ ds) (sym (append_assoc of_black (deltas_for id xs) (deltas_for id ys)))
    ∙ sym (append_assoc of_white (of_black ++ deltas_for id xs) (deltas_for id ys))

is_scored-append :
    (id : Bytes) (xs : List Scored) (s : Scored)
    → is_scored id xs ≡ false
    → bytes_eq s.game_id id ≡ false
    → is_scored id (xs ++ s ∷ []) ≡ false
unfolding is_scored
is_scored-append id [] s h e = rw e refl
is_scored-append id (x ∷ xs) s h e = ground (arith, h, is_scored-append id xs s, e)

Distinct-append :
    (xs : List Scored) (s : Scored)
    → Distinct xs
    → is_scored s.game_id xs ≡ false
    → Distinct (xs ++ s ∷ [])
unfolding is_scored
Distinct-append [] s d h = (refl, tt)
Distinct-append (x ∷ xs) s (d, ds) h = elim (Bool-cases (bytes_eq x.game_id s.game_id)) [
  | inl e ↦ absurd (ground (arith, h, e))
  | inr e ↦ (
    is_scored-append x.game_id xs s d (bytes_eq_flip x.game_id s.game_id e),
    Distinct-append xs s ds (ground (arith, h, e)),
  )
]

-- The two updates of one account.
abbrev with_delta : Bytes → ℤ → Account → Account
with_delta id delta a = if bytes_eq a.id id then record a { elo = a.elo +ℤ delta } else a

two_deltas :
    (white_id black_id : Bytes) (white_delta black_delta : ℤ) (a : Account)
    → let b = with_delta black_id black_delta (with_delta white_id white_delta a) in
      (b.id ≡ a.id)
      × (b.elo
          ≡ total a.elo (
              (if bytes_eq a.id white_id then white_delta ∷ [] else [])
              ++ ((if bytes_eq a.id black_id then black_delta ∷ [] else []) ++ [])))
two_deltas white_id black_id white_delta black_delta a =
    elim (Bool-cases (bytes_eq a.id white_id)) [
      | inl w ↦ elim (Bool-cases (bytes_eq a.id black_id)) [
        | inl b ↦ rw (w, b) (refl, refl)
        | inr b ↦ rw (w, b) (refl, refl)
      ]
      | inr w ↦ elim (Bool-cases (bytes_eq a.id black_id)) [
        | inl b ↦ rw (w, b) (refl, refl)
        | inr b ↦ rw (w, b) (refl, refl)
      ]
    ]

All-add_elo :
    {P Q : Account → Type 0} (id : Bytes) (delta : ℤ) (accounts : List Account)
    → ((a : Account) → P a → Q (with_delta id delta a))
    → All P accounts
    → All Q (add_elo id delta accounts)
unfolding add_elo
All-add_elo id delta [] f nil = nil
All-add_elo id delta (a ∷ accounts) f (cons p ps) =
    cons (f a p) (All-add_elo id delta accounts f ps)

-- A scored game.
rated-IsLedger :
    (t : RatingTables) (s : Scored)
    → IsLedger t
    → is_scored s.game_id t.scored ≡ false
    → IsLedger (record {
      accounts = add_elo s.black_id s.black_delta (add_elo s.white_id s.white_delta t.accounts);
      scored = t.scored ++ s ∷ [];
    })
rated-IsLedger t s l fresh = record {
  ratings =
      All-add_elo
        {P = λ a.
          (b : Account) × (with_delta s.white_id s.white_delta b ≡ a)
          × (b.elo ≡ total (pos 1200) (deltas_for b.id t.scored))}
        s.black_id s.black_delta (add_elo s.white_id s.white_delta t.accounts)
        (λ a (b, same, h).
          subst (λ c. Owes (with_delta s.black_id s.black_delta c)) same (owed b h))
        (All-add_elo s.white_id s.white_delta t.accounts (λ b h. (b, refl, h)) l.ratings);
  once = Distinct-append t.scored s l.once fresh;
}
  where
    Owes : Account → Type 0
    Owes a = a.elo ≡ total (pos 1200) (deltas_for a.id (t.scored ++ s ∷ []))

    owed :
        (b : Account)
        → b.elo ≡ total (pos 1200) (deltas_for b.id t.scored)
        → Owes (with_delta s.black_id s.black_delta (with_delta s.white_id s.white_delta b))
    owed b h =
        let (id_eq, elo_eq) = two_deltas s.white_id s.black_id s.white_delta s.black_delta b in
        let news = deltas_for b.id (s ∷ []) in
        elo_eq
        ∙ ap (λ e. total e news) h
        ∙ sym (total-append (pos 1200) (deltas_for b.id t.scored) news)
        ∙ ap (total (pos 1200)) (sym (deltas_for-append b.id t.scored (s ∷ [])))
        ∙ ap (λ i. total (pos 1200) (deltas_for i (t.scored ++ s ∷ []))) (sym id_eq)

module _ (F : Floats) where
  rateable-fresh :
      (id : Bytes) (db : Db) (t : RatingTables) {players : Bytes × Bytes}
      → rateable id db t ≡ some players
      → is_scored id t.scored ≡ false
  rateable-fresh id db t h = elim (Bool-cases (is_scored id t.scored)) [
    | inl e ↦ absurd (ground (arith, h, e))
    | inr e ↦ e
  ]

  locked-IsLedger :
      (down : Bool) (id : Bytes) (outcome : RatingOutcome) (players : Option (Bytes × Bytes))
      (db : Db) (t : RatingTables)
      → IsLedger t
      → (((p : Bytes × Bytes) → players ≡ some p → is_scored id t.scored ≡ false))
      → IsLedger (kept F t (apply_locked F down id outcome players db t))
  locked-IsLedger down id outcome none db t l fresh = l
  locked-IsLedger true id outcome (some players) db t l fresh = l
  locked-IsLedger false id outcome (some players) db t l fresh =
      rated (find_elo players.0 t.accounts) (find_elo players.1 t.accounts)
    where
      rated : (a b : Option ℤ) → IsLedger (kept F t (rate_players F id outcome players a b db t))
      rated none b = l
      rated (some a) none = l
      rated (some a) (some b) = rated-IsLedger t _ l (fresh players refl)

  call-IsLedger :
      (query_down down : Bool) (id : Bytes) (outcome : RatingOutcome) (db : Db) (t : RatingTables)
      → IsLedger t
      → IsLedger (kept F t (apply_ratings F query_down down id outcome db t))
  unfolding apply_ratings
  call-IsLedger true down id outcome db t l = l
  call-IsLedger false down id outcome db t l =
      locked-IsLedger down id outcome (rateable id db t) db t l (λ p. rateable-fresh id db t)

  -- After any calls of ApplyRatings, repeated, failing at any step and for any games and results, every
  -- account's rating is 1200 and the deltas that are recorded for it on the scored games, in their order, and
  -- no game is scored twice; given that it was so before.
  pub rate_games-IsLedger :
      (calls : List (RatingCall F)) (t : RatingTables)
      → IsLedger t
      → IsLedger (rate_games F calls t)
  unfolding rate_games
  rate_games-IsLedger [] t l = l
  rate_games-IsLedger (c ∷ calls) t l =
      rate_games-IsLedger calls
        (kept F t (apply_ratings F c.query_down c.down c.game_id c.outcome c.db t))
        (call-IsLedger c.query_down c.down c.game_id c.outcome c.db t l)
