-- ===== src/Store/Outbox.antt =====
-- The outbox of announced moves: pkg/store/outbox.go.
use alekhines_counter_gambit.Base.{
  Bool, List, [], arith, false, if◌then◌else◌, ltb, suc, true, zero, ℕ, ◌++◌, ◌+◌, ◌==◌, ◌||◌, ◌∷◌,
  ◌≡◌, ◌≤◌,
}
use alekhines_counter_gambit.Base.Int.{negsuc, pos, ℤ}
use alekhines_counter_gambit.Base.Result.{Result, err, ok}
use alekhines_counter_gambit.Store.{Db, OutboxRow, StoreError, database}

-- The page size that FetchUnpublished settles on.
abbrev pub page_limit : ℤ → ℕ
page_limit (negsuc n) = 200
page_limit (pos n) = if n == 0 || ltb 1000 n then 200 else n

-- The first `n` rows that are not published, in the order of their ids, which is that of insertion.
unfoldable pub unpublished : ℕ → List (OutboxRow × Bool) → List OutboxRow
unpublished zero rows = []
unpublished (suc n) [] = []
unpublished (suc n) ((r, true) ∷ rows) = unpublished (suc n) rows
unpublished (suc n) ((r, false) ∷ rows) = r ∷ unpublished n rows

-- FetchUnpublished
unfoldable pub fetch_unpublished : Bool → ℤ → Db → Result StoreError (List OutboxRow)
unfolding unpublished
fetch_unpublished down limit db =
    if down then err database else ok (unpublished (page_limit limit) db.outbox)

unfoldable pub is_listed : ℕ → List ℕ → Bool
is_listed id [] = false
is_listed id (x ∷ ids) = x == id || is_listed id ids

-- `UPDATE move_outbox SET published_at = now() WHERE id = ANY($1)`
unfoldable pub stamp : List ℕ → List (OutboxRow × Bool) → List (OutboxRow × Bool)
unfolding is_listed
stamp ids [] = []
stamp ids ((r, published) ∷ rows) = (r, published || is_listed r.id ids) ∷ stamp ids rows

abbrev pub is_no_ids : List ℕ → Bool
is_no_ids [] = true
is_no_ids (x ∷ ids) = false

-- MarkPublished
unfoldable pub mark_published : Bool → List ℕ → Db → Result StoreError Db
unfolding stamp
mark_published down ids db =
    if is_no_ids ids
    then ok db
    else if down
    then err database
    else ok (record db { outbox = stamp ids db.outbox })

-- The ids go up from `n`, and those of new rows start at `next`.
abbrev pub Ascending : ℕ → List (OutboxRow × Bool) → ℕ → Type 0
Ascending n [] next = n ≤ next
Ascending n ((r, published) ∷ rows) next = (n ≤ r.id) × Ascending (suc r.id) rows next

pub Ascending-append :
    (n : ℕ) (rows : List (OutboxRow × Bool)) (next : ℕ) (r : OutboxRow) (published : Bool)
    → r.id ≡ next
    → Ascending n rows next
    → Ascending n (rows ++ (r, published) ∷ []) (next + 1)
Ascending-append n [] next r published e h = (omega (arith, e, h), omega (arith, e))
Ascending-append n ((x, seen) ∷ rows) next r published e (h, hs) =
    (h, Ascending-append (suc x.id) rows next r published e hs)
