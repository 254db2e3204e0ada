-- ===== src/Prelude/Order.antt =====
-- Lists in which every element stands in a relation to all that follow it.
use mathlib.Core.List.{List, [], ◌∷◌, ◌++◌}
use cyptocurrency_exchange_b.Prelude.Lists.{All}

abbrev pub Sorted {ℓ κ} : {A : Type ℓ} → (A → A → Type κ) → List A → Type κ
Sorted R [] = Unit
Sorted R (x ∷ xs) = All (R x) xs × Sorted R xs

module _ {ℓ κ} {A : Type ℓ} (P : A → Type κ) where
  pub All-append_left : (xs ys : List A) → All P (xs ++ ys) → All P xs
  All-append_left [] ys h = tt
  All-append_left (x ∷ xs) ys h = (h.0, All-append_left xs ys h.1)

  pub All-append_right : (xs ys : List A) → All P (xs ++ ys) → All P ys
  All-append_right [] ys h = h
  All-append_right (x ∷ xs) ys h = All-append_right xs ys h.1

  pub All-map {μ} : (Q : A → Type μ) (xs : List A) → ((x : A) → P x → Q x) → All P xs → All Q xs
  All-map Q [] f h = tt
  All-map Q (x ∷ xs) f h = (f x h.0, All-map Q xs f h.1)

  pub All-insert : (x : A) (xs ys : List A) → P x → All P (xs ++ ys) → All P (xs ++ x ∷ ys)
  All-insert x [] ys p h = (p, h)
  All-insert x (y ∷ xs) ys p h = (h.0, All-insert x xs ys p h.1)

  pub All-delete : (x : A) (xs ys : List A) → All P (xs ++ x ∷ ys) → All P (xs ++ ys)
  All-delete x [] ys h = h.1
  All-delete x (y ∷ xs) ys h = (h.0, All-delete x xs ys h.1)

module _ {ℓ κ} {A : Type ℓ} (R : A → A → Type κ) where
  -- What stands before `x` in a sorted list is related to it.
  pub Sorted-before :
      (xs : List A) (x : A) (ys : List A) → Sorted R (xs ++ x ∷ ys) → All (λ y. R y x) xs
  Sorted-before [] x ys s = tt
  Sorted-before (z ∷ xs) x ys s =
      ((All-append_right (R z) xs (x ∷ ys) s.0).0, Sorted-before xs x ys s.1)

  pub Sorted-insert :
      (x : A) (xs ys : List A)
      → Sorted R (xs ++ ys)
      → All (λ y. R y x) xs
      → All (R x) ys
      → Sorted R (xs ++ x ∷ ys)
  Sorted-insert x [] ys s before after = (after, s)
  Sorted-insert x (z ∷ xs) ys s before after =
      (All-insert (R z) x xs ys before.0 s.0, Sorted-insert x xs ys s.1 before.1 after)

  pub Sorted-delete : (x : A) (xs ys : List A) → Sorted R (xs ++ x ∷ ys) → Sorted R (xs ++ ys)
  Sorted-delete x [] ys s = s.1
  Sorted-delete x (z ∷ xs) ys s = (All-delete (R z) x xs ys s.0, Sorted-delete x xs ys s.1)
