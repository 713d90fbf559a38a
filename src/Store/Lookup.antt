-- ===== src/Store/Lookup.antt =====
-- What a query by id finds in `games` behind an insertion or an update: pkg/store/store.go.
use alekhines_counter_gambit.Base.{
  Bool, Bool-cases, List, [], ap, false, if◌then◌else◌, inl, inr, refl, some, sym, true, ◌++◌, ◌∙◌,
  ◌∷◌, ◌≡◌,
}
use alekhines_counter_gambit.Base.Text.{Bytes, bytes_eq}
use alekhines_counter_gambit.Base.Text.Words.{bytes_eq-≡}
use alekhines_counter_gambit.Store.{GameRow}
use alekhines_counter_gambit.Store.Games.{find_row, has_id, update_where}
use mathlib.Core.Option.{some-injective}

changed_id :
    (id : Bytes) (test : GameRow → Bool) (change : GameRow → GameRow) (x : GameRow)
    → ((r : GameRow) → (change r).id ≡ r.id)
    → has_id id (if test x then change x else x) ≡ has_id id x
changed_id id test change x same = elim (Bool-cases (test x)) [
  | inl e ↦ rw e (ap (λ i. bytes_eq i id) (same x))
  | inr e ↦ rw e refl
]

find_row_here :
    (id : Bytes) (x : GameRow) (rows : List GameRow)
    → has_id id x ≡ true
    → find_row id (x ∷ rows) ≡ some x
unfolding find_row
find_row_here id x rows t = rw (find_row, t) refl

find_row_there :
    (id : Bytes) (x : GameRow) (rows : List GameRow)
    → has_id id x ≡ false
    → find_row id (x ∷ rows) ≡ find_row id rows
unfolding find_row
find_row_there id x rows t = rw (find_row, t) refl

-- An update that leaves the row that a query finds.
pub find_row-update_where :
    (id : Bytes) (test : GameRow → Bool) (change : GameRow → GameRow) (rows : List GameRow)
    {row : GameRow}
    → ((r : GameRow) → (change r).id ≡ r.id)
    → find_row id rows ≡ some row
    → test row ≡ false
    → find_row id (update_where test change rows) ≡ some row
unfolding find_row update_where
find_row-update_where id test change [] same h e = absurd (cc)
find_row-update_where id test change (x ∷ rows) {row} same h e = elim (Bool-cases (has_id id x)) [
  | inl t ↦
      let first : x ≡ row = some-injective x row (sym (find_row_here id x rows t) ∙ h) in
      let off : test x ≡ false = ap test first ∙ e in
      find_row_here id (if test x then change x else x) (update_where test change rows)
        (changed_id id test change x same ∙ t)
      ∙ ap some (rw off first)
  | inr t ↦
      find_row_there id (if test x then change x else x) (update_where test change rows)
        (changed_id id test change x same ∙ t)
      ∙ find_row-update_where id test change rows same (sym (find_row_there id x rows t) ∙ h) e
]

pub find_row-append :
    (id : Bytes) (rows : List GameRow) (x : GameRow) {row : GameRow}
    → find_row id rows ≡ some row
    → find_row id (rows ++ x ∷ []) ≡ some row
unfolding find_row
find_row-append id [] x h = absurd (cc)
find_row-append id (r ∷ rows) x {row} h = elim (Bool-cases (has_id id r)) [
  | inl t ↦ find_row_here id r (rows ++ x ∷ []) t ∙ sym (find_row_here id r rows t) ∙ h
  | inr t ↦
      find_row_there id r (rows ++ x ∷ []) t
      ∙ find_row-append id rows x (sym (find_row_there id r rows t) ∙ h)
]

pub find_row_id :
    (id : Bytes) (rows : List GameRow) {row : GameRow} → find_row id rows ≡ some row → row.id ≡ id
unfolding find_row
find_row_id id [] h = absurd (cc)
find_row_id id (x ∷ rows) {row} h = elim (Bool-cases (has_id id x)) [
  | inl t ↦
      ap (λ r. r.id) (sym (some-injective x row (sym (find_row_here id x rows t) ∙ h)))
      ∙ bytes_eq-≡ x.id id t
  | inr t ↦ find_row_id id rows {row = row} (sym (find_row_there id x rows t) ∙ h)
]
