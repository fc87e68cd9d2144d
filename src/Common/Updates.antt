-- ===== src/Common/Updates.antt =====
-- Lists that are read and written at an index.
use Prim.Native.Nat.{ℕ, zero, suc, ◌<◌}
use mathlib.Core.Path.{◌≡◌, refl, ap}
use mathlib.Core.Logic.{◌≢◌}
use mathlib.Core.List.{List, [], ◌∷◌, ◌++◌}
use mathlib.Core.Option.{some}
use native.Mathlib.Omega.{arith}
use fq_client_go.Common.Lists.{length, get_elem?, set, All}

module _ {A : Type 0} where
  pub set-same : (rs : List A) (i : ℕ) (b : A) → i < length rs → get_elem? (set rs i b) i ≡ some b
  set-same [] i b h = absurd (omega arith)
  set-same (r ∷ rs) zero b h = refl
  set-same (r ∷ rs) (suc i) b h = set-same rs i b (omega arith)

  pub set-other :
      (rs : List A) (i j : ℕ) (b : A) → i ≢ j → get_elem? (set rs i b) j ≡ get_elem? rs j
  set-other [] i j b n = refl
  set-other (r ∷ rs) zero zero b n = absurd (n refl)
  set-other (r ∷ rs) zero (suc j) b n = refl
  set-other (r ∷ rs) (suc i) zero b n = refl
  set-other (r ∷ rs) (suc i) (suc j) b n = set-other rs i j b (λ e. n (ap suc e))

  pub get_elem?-lt : (rs : List A) (i : ℕ) (b : A) → get_elem? rs i ≡ some b → i < length rs
  get_elem?-lt [] i b h = grind arith
  get_elem?-lt (r ∷ rs) zero b h = omega arith
  get_elem?-lt (r ∷ rs) (suc i) b h = omega (arith, get_elem?-lt rs i b h)

  pub get_elem?-middle :
      (front : List A) (a : A) (back : List A)
      → get_elem? (front ++ a ∷ back) (length front) ≡ some a
  get_elem?-middle [] a back = refl
  get_elem?-middle (b ∷ front) a back = get_elem?-middle front a back

  pub head_of : A → List A → A
  head_of a [] = a
  head_of a (b ∷ bs) = b

  pub same_elements :
      (xs ys : List A)
      → length xs ≡ length ys
      → ((j : ℕ) → j < length xs → get_elem? xs j ≡ get_elem? ys j)
      → xs ≡ ys
  same_elements [] [] l h = refl
  same_elements [] (y ∷ ys) l h = absurd (omega (arith, l))
  same_elements (x ∷ xs) [] l h = absurd (omega (arith, l))
  same_elements (x ∷ xs) (y ∷ ys) l h =
      let first : some x ≡ some y = h 0 (omega arith) in
      let rest = same_elements xs ys (omega (arith, l)) (λ j m. h (suc j) (omega arith)) in cc

module _ {A : Type 0} {P Q : A → Type 0} (f : (a : A) → P a → Q a) where
  pub All-map : (xs : List A) → All P xs → All Q xs
  All-map [] h = tt
  All-map (x ∷ xs) (p, h) = (f x p, All-map xs h)
