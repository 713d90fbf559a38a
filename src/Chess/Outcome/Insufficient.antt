-- ===== src/Chess/Outcome/Insufficient.antt =====
-- Which material cannot mate: InsufficientMaterial of pkg/chess/outcome.go, by a count of the pieces.
use alekhines_counter_gambit.Base.{
  Bool, Bool-cases, List, [], ap, arith, false, if◌then◌else◌, inl, inr, ltb, none, refl, some, suc,
  sym, true, ℕ, ◌%◌, ◌&&◌, ◌++◌, ◌+◌, ◌/◌, ◌<◌, ◌||◌, ◌↔◌, ◌∙◌, ◌∷◌, ◌≡◌,
}
use alekhines_counter_gambit.Chess.Board.{Board}
use alekhines_counter_gambit.Chess.Outcome.{
  Material, add_minor, count_material, count_piece, is_insufficient, judge_material,
  same_color_pair,
}
use alekhines_counter_gambit.Chess.Piece.{
  Color, Piece, bishop, black, is_empty, king, knight, type_eq, white,
}
use mathlib.Core.Bool.{not}
use mathlib.Core.List.{append-nil, append_assoc}
use mathlib.Core.Path.{subst}

-- A square that is empty or holds a king, a bishop or a knight.
abbrev pub is_light : Piece → Bool
is_light p =
    is_empty p
    || (type_eq p.piece_type king || (type_eq p.piece_type bishop || type_eq p.piece_type knight))

abbrev pub is_bishop : Piece → Bool
is_bishop p = not (is_empty p) && type_eq p.piece_type bishop

abbrev pub is_minor : Piece → Bool
is_minor p = not (is_empty p) && (type_eq p.piece_type bishop || type_eq p.piece_type knight)

unfoldable pub all_light : List Piece → Bool
all_light [] = true
all_light (p ∷ ps) = is_light p && all_light ps

-- The number of bishops and knights, of either side; and the squares of the bishops, of either side.
unfoldable pub count_minors : List Piece → ℕ
count_minors [] = 0
count_minors (p ∷ ps) = (if is_minor p then 1 else 0) + count_minors ps

abbrev pub bishop_here : ℕ → Piece → List ℕ
bishop_here s p = if is_bishop p then s ∷ [] else []

unfoldable pub bishops_from : ℕ → List Piece → List ℕ
bishops_from s [] = []
bishops_from s (p ∷ ps) = bishop_here s p ++ bishops_from (suc s) ps

abbrev minor_total : Material → ℕ
minor_total t = t.white_minor + t.black_minor

-- What the loop has counted behind `ps`, if it has not returned.
record IsCounted (ps : List Piece) (s : ℕ) (t t' : Material) : Type 0 where
  total : minor_total t' ≡ minor_total t + count_minors ps
  bishops : t'.bishop_squares ≡ t.bishop_squares ++ bishops_from s ps

minor_total-add_minor : (c : Color) (t : Material) → minor_total (add_minor c t) ≡ minor_total t + 1
minor_total-add_minor white t = omega arith
minor_total-add_minor black t = omega arith

bishops-add_minor : (c : Color) (t : Material) → (add_minor c t).bishop_squares ≡ t.bishop_squares
bishops-add_minor white t = refl
bishops-add_minor black t = refl

-- One piece.
record IsAdded (p : Piece) (s : ℕ) (t t' : Material) : Type 0 where
  total : minor_total t' ≡ minor_total t + (if is_minor p then 1 else 0)
  bishops : t'.bishop_squares ≡ t.bishop_squares ++ bishop_here s p

no_bishop : (p : Piece) (s : ℕ) → is_bishop p ≡ false → bishop_here s p ≡ []
no_bishop p s h = rw h refl

count_piece_light :
    (p : Piece) (s : ℕ) (t : Material)
    → is_empty p ≡ false
    → is_light p ≡ true
    → (t' : Material) × (count_piece p s t ≡ some t') × IsAdded p s t t'
count_piece_light p s t e l = elim (Bool-cases (type_eq p.piece_type king)) [
  | inl k ↦
      let other : is_bishop p ≡ false = ground (arith, k) in
      (
        t,
        rw k refl,
        record {
          total = ground (arith, k);
          bishops = rw other (sym (append-nil t.bishop_squares));
        },
      )
  | inr k ↦ elim (Bool-cases (type_eq p.piece_type bishop)) [
    | inl b ↦
        let t1 : Material = record t { bishop_squares = t.bishop_squares ++ s ∷ [] } in
        let this : is_bishop p ≡ true = ground (arith, e, b) in
        (
          add_minor p.color t1,
          rw (k, b) refl,
          record {
            total = ground (arith, e, b, minor_total-add_minor p.color t1);
            bishops = rw this (bishops-add_minor p.color t1);
          },
        )
    | inr b ↦
        let other : is_bishop p ≡ false = ground (arith, e, b) in
        (
          add_minor p.color t,
          ground (arith, e, l, k, b),
          record {
            total = ground (arith, e, l, k, b, minor_total-add_minor p.color t);
            bishops = rw other (bishops-add_minor p.color t ∙ sym (append-nil t.bishop_squares));
          },
        )
  ]
]

count_piece_heavy :
    (p : Piece) (s : ℕ) (t : Material)
    → is_empty p ≡ false
    → is_light p ≡ false
    → count_piece p s t ≡ none
count_piece_heavy p s t e l = ground (arith, e, l)

IsAdded-IsCounted :
    (p : Piece) (ps : List Piece) (s : ℕ) (t t1 t' : Material)
    → IsAdded p s t t1
    → IsCounted ps (suc s) t1 t'
    → IsCounted (p ∷ ps) s t t'
unfolding count_minors bishops_from
IsAdded-IsCounted p ps s t t1 t' a c = record {
  total = omega (arith, a.total, c.total);
  bishops =
      c.bishops
      ∙ ap (λ x. x ++ bishops_from (suc s) ps) a.bishops
      ∙ append_assoc t.bishop_squares (bishop_here s p) (bishops_from (suc s) ps);
}

-- The whole loop.
count_material_light :
    (ps : List Piece) (s : ℕ) (t : Material)
    → all_light ps ≡ true
    → (t' : Material) × (count_material ps s t ≡ some t') × IsCounted ps s t t'
unfolding count_material all_light count_minors bishops_from
count_material_light [] s t h =
    (t, refl, record { total = omega arith; bishops = sym (append-nil t.bishop_squares) })
count_material_light (p ∷ ps) s t h = elim (Bool-cases (is_empty p)) [
  | inl e ↦
      let (t', made, c) = count_material_light ps (suc s) t (ground (arith, h)) in
      let none_here = no_bishop p s (ground (arith, e)) in
      (
        t',
        rw (count_material, e) made,
        record {
          total = ground (arith, e, c.total);
          bishops =
              c.bishops
              ∙ ap (λ x. t.bishop_squares ++ (x ++ bishops_from (suc s) ps)) (sym none_here);
        },
      )
  | inr e ↦
      let (t1, one, a) = count_piece_light p s t e (ground (arith, h)) in
      let (t', made, c) = count_material_light ps (suc s) t1 (ground (arith, h)) in
      (t', rw (count_material, e) (rw one made), IsAdded-IsCounted p ps s t t1 t' a c)
]

count_material_heavy :
    (ps : List Piece) (s : ℕ) (t : Material) → all_light ps ≡ false → count_material ps s t ≡ none
unfolding count_material all_light
count_material_heavy [] s t h = absurd (cc)
count_material_heavy (p ∷ ps) s t h = elim (Bool-cases (is_empty p)) [
  | inl e ↦ rw (count_material, e) (count_material_heavy ps (suc s) t (ground (arith, h, e)))
  | inr e ↦ elim (Bool-cases (is_light p)) [
    | inl l ↦
        let (t1, one, a) = count_piece_light p s t e l in
        rw (count_material, e) (rw one (count_material_heavy ps (suc s) t1 (ground (arith, h, l))))
    | inr l ↦ rw (count_material, e) (rw (count_piece_heavy p s t e l) refl)
  ]
]

-- At most one bishop or knight is left; or two are left, both bishops, of either side, and on squares of
-- one color.
pub data IsDead (minors : ℕ) (bishops : List ℕ) : Type 0 where
  lone : minors < 2 → IsDead minors bishops
  pair :
      (x y : ℕ)
      → minors ≡ 2
      → bishops ≡ x ∷ y ∷ []
      → (x % 8 + x / 8) % 2 ≡ (y % 8 + y / 8) % 2
      → IsDead minors bishops

pair_of :
    (bs : List ℕ)
    → same_color_pair bs ≡ true
    → (x : ℕ) × (y : ℕ) × (bs ≡ x ∷ y ∷ []) × ((x % 8 + x / 8) % 2 ≡ (y % 8 + y / 8) % 2)
pair_of [] h = absurd (cc)
pair_of (x ∷ []) h = absurd (cc)
pair_of (x ∷ y ∷ []) h = (x, y, refl, ground (arith, h))
pair_of (x ∷ y ∷ z ∷ bs) h = absurd (cc)

judge_material-IsDead :
    (t : Material) → judge_material (some t) ≡ true → IsDead (minor_total t) t.bishop_squares
judge_material-IsDead t h = elim (Bool-cases (ltb (minor_total t) 2)) [
  | inl e ↦ lone (ground (arith, e))
  | inr e ↦
      let (x, y, two, same) = pair_of t.bishop_squares (ground (arith, h, e)) in
      pair x y (ground (arith, h, e)) two same
]

IsDead-judge_material :
    (t : Material) → IsDead (minor_total t) t.bishop_squares → judge_material (some t) ≡ true
IsDead-judge_material t (lone h) = ground (arith, h)
IsDead-judge_material t (pair x y n two same) =
    let matched : same_color_pair t.bishop_squares ≡ true =
      ap same_color_pair two ∙ ground (arith, same) in
    ground (arith, n, matched)

-- A position is insufficient material exactly when every square is empty or holds a king, a bishop or a
-- knight, and there is at most one bishop or knight in all, or there are two of them in all, of either
-- side, and both are bishops on squares of one color.
pub is_insufficient_iff :
    (b : Board)
    → (is_insufficient b ≡ true)
      ↔ ((all_light b.squares ≡ true) × IsDead (count_minors b.squares) (bishops_from 0 b.squares))
unfolding is_insufficient
is_insufficient_iff b = elim (Bool-cases (all_light b.squares)) [
  | inl l ↦
      let start : Material = record { white_minor = 0; black_minor = 0; bishop_squares = [] } in
      let (t, made, c) = count_material_light b.squares 0 start l in
      let total : minor_total t ≡ count_minors b.squares = c.total ∙ omega arith in
      let there : is_insufficient b ≡ judge_material (some t) = ap judge_material made in
      (
        λ h. (
          l,
          subst (λ n. IsDead n (bishops_from 0 b.squares)) total
              (subst (IsDead (minor_total t)) c.bishops (judge_material-IsDead t (sym there ∙ h))),
        ),
        λ h.
            there
            ∙ IsDead-judge_material t (
                subst (λ n. IsDead n t.bishop_squares) (sym total)
                  (subst (IsDead (count_minors b.squares)) (sym c.bishops) h.1)),
      )
  | inr l ↦
      let not_so : is_insufficient b ≡ false =
        ap judge_material (count_material_heavy b.squares 0 _ l) in
      (λ h. absurd (cc), λ h. absurd (let k = h.0 in cc))
]
