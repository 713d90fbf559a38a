-- ===== src/Base/All.antt =====
-- A predicate of every item of a list.
use alekhines_counter_gambit.Base.{
  Bool, List, [], false, get_or, if◌then◌else◌, refl, replicate, set, suc, true, zero, ℕ, ◌++◌, ◌∷◌,
  ◌≡◌,
}

pub data All {ℓ κ} {A : Type ℓ} (P : A → Type κ) : List A → Type (ℓ ⊔ κ) where
  nil : All P []
  cons : {x : A} {xs : List A} → P x → All P xs → All P (x ∷ xs)

module _ {ℓ κ} {A : Type ℓ} {P : A → Type κ} where
  pub All-one : {x : A} → P x → All P (x ∷ [])
  All-one px = cons px nil

  pub All-append : {xs ys : List A} → All P xs → All P ys → All P (xs ++ ys)
  All-append nil hy = hy
  All-append (cons px hx) hy = cons px (All-append hx hy)

  pub All-if :
      (test : Bool) (xs : List A) → (test ≡ true → All P xs) → All P (if test then xs else [])
  All-if true xs h = h refl
  All-if false xs h = nil

  pub All-map {μ} : {Q : A → Type μ} {xs : List A} → ((x : A) → P x → Q x) → All P xs → All Q xs
  All-map f nil = nil
  All-map f (cons {x = x} px hx) = cons (f x px) (All-map f hx)

  pub All-set : (xs : List A) (i : ℕ) (v : A) → All P xs → P v → All P (set xs i v)
  All-set [] i v nil h = nil
  All-set (x ∷ xs) zero v (cons px hx) h = cons h hx
  All-set (x ∷ xs) (suc i) v (cons px hx) h = cons px (All-set xs i v hx h)

  pub All-get_or : (xs : List A) (i : ℕ) (d : A) → All P xs → P d → P (get_or xs i d)
  All-get_or [] i d nil h = h
  All-get_or (x ∷ xs) zero d (cons px hx) h = px
  All-get_or (x ∷ xs) (suc i) d (cons px hx) h = All-get_or xs i d hx h

  pub All-replicate : (n : ℕ) (v : A) → P v → All P (replicate n v)
  All-replicate zero v h = nil
  All-replicate (suc n) v h = cons h (All-replicate n v h)

  pub All-both {μ} : {Q : A → Type μ} {xs : List A} → All P xs → All Q xs → All (λ x. P x × Q x) xs
  All-both nil nil = nil
  All-both (cons px hx) (cons qx hy) = cons (px, qx) (All-both hx hy)

  pub All-first : {x : A} {xs : List A} → All P (x ∷ xs) → P x
  All-first (cons px hx) = px

  pub All-rest : {x : A} {xs : List A} → All P (x ∷ xs) → All P xs
  All-rest (cons px hx) = hx
