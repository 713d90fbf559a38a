-- ===== src/Eventlog/Relay/Outbox.antt =====
-- The rows that a cycle of the relay publishes are the first unpublished ones: pkg/store/outbox.go and
-- pkg/eventlog/relay.go.
use alekhines_counter_gambit.Base.{
  Bool, List, [], ap, arith, drop, false, map, refl, suc, take, true, zero, ℕ, ◌<◌, ◌==◌, ◌∙◌, ◌∷◌,
  ◌≡◌,
}
use alekhines_counter_gambit.Store.{OutboxRow}
use alekhines_counter_gambit.Store.Outbox.{Ascending, is_listed, stamp, unpublished}

-- Every row that is not published.
abbrev pub pending : List (OutboxRow × Bool) → List OutboxRow
pending [] = []
pending ((r, true) ∷ rows) = pending rows
pending ((r, false) ∷ rows) = r ∷ pending rows

-- The first `n` unpublished rows become published.
abbrev pub mark_first : ℕ → List (OutboxRow × Bool) → List (OutboxRow × Bool)
mark_first zero rows = rows
mark_first (suc n) [] = []
mark_first (suc n) ((r, true) ∷ rows) = (r, true) ∷ mark_first (suc n) rows
mark_first (suc n) ((r, false) ∷ rows) = (r, true) ∷ mark_first n rows

abbrev pub ids_of : List OutboxRow → List ℕ
ids_of rows = map (λ r. r.id) rows

pub unpublished-pending :
    (n : ℕ) (rows : List (OutboxRow × Bool)) → unpublished n rows ≡ take n (pending rows)
unfolding unpublished
unpublished-pending zero rows = refl
unpublished-pending (suc n) [] = refl
unpublished-pending (suc n) ((r, true) ∷ rows) = unpublished-pending (suc n) rows
unpublished-pending (suc n) ((r, false) ∷ rows) = ap (λ xs. r ∷ xs) (unpublished-pending n rows)

pub pending-mark_first :
    (n : ℕ) (rows : List (OutboxRow × Bool)) → pending (mark_first n rows) ≡ drop n (pending rows)
pending-mark_first zero rows = refl
pending-mark_first (suc n) [] = refl
pending-mark_first (suc n) ((r, true) ∷ rows) = pending-mark_first (suc n) rows
pending-mark_first (suc n) ((r, false) ∷ rows) = pending-mark_first n rows

pub stamp-nil : (rows : List (OutboxRow × Bool)) → stamp [] rows ≡ rows
unfolding stamp is_listed
stamp-nil [] = refl
stamp-nil ((r, true) ∷ rows) = ap (λ xs. (r, true) ∷ xs) (stamp-nil rows)
stamp-nil ((r, false) ∷ rows) = ap (λ xs. (r, false) ∷ xs) (stamp-nil rows)

-- An id below those of the rows selects none of them.
stamp_below :
    (id m next : ℕ) (ids : List ℕ) (rows : List (OutboxRow × Bool))
    → id < m
    → Ascending m rows next
    → stamp (id ∷ ids) rows ≡ stamp ids rows
unfolding stamp is_listed
stamp_below id m next ids [] lt h = refl
stamp_below id m next ids ((r, published) ∷ rows) lt (le, h) =
    let other : (id == r.id) ≡ false = ground (arith, lt, le) in
    rw (other, stamp, is_listed)
      (rw (stamp_below id (suc r.id) next ids rows (omega (arith, lt, le)) h) refl)

-- The update by the ids of the first `n` unpublished rows.
pub stamp-unpublished :
    (n m next : ℕ) (rows : List (OutboxRow × Bool))
    → Ascending m rows next
    → stamp (ids_of (take n (pending rows))) rows ≡ mark_first n rows
unfolding stamp
stamp-unpublished zero m next rows h = stamp-nil rows
stamp-unpublished (suc n) m next [] h = refl
stamp-unpublished (suc n) m next ((r, true) ∷ rows) (le, h) =
    ap (λ xs. (r, true) ∷ xs) (stamp-unpublished (suc n) (suc r.id) next rows h)
stamp-unpublished (suc n) m next ((r, false) ∷ rows) (le, h) =
    let self : (r.id == r.id) ≡ true = ground arith in
    rw (self, stamp, is_listed)
      (ap (λ xs. (r, true) ∷ xs)
        (stamp_below r.id (suc r.id) next (ids_of (take n (pending rows))) rows (omega arith) h
          ∙ stamp-unpublished n (suc r.id) next rows h))
