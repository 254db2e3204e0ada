-- ===== src/Engine/OrderBook/Sort.antt =====
-- What `sort.SliceStable` does to a sorted slice with one new element at its end.
use mathlib.Core.List.{append-nil, append_assoc}
use cyptocurrency_exchange_b.Prelude.{
  ◌≡◌, refl, ap, subst, ◌∙◌, sym, inl, inr, Bool, true, false, List, [], ◌∷◌, ◌++◌, All, Bool-cases,
}
use cyptocurrency_exchange_b.Prelude.Order.{Sorted, Sorted-before, All-map}
use cyptocurrency_exchange_b.Engine.OrderBook.{insert_stable, sort_from, slice_stable}

module _ {ℓ} {A : Type ℓ} (less : A → A → Bool) (R : A → A → Type 0) where
  -- `a` stands behind all that are not worse than it, and before all that are.
  pub record Placed (a : A) (xs : List A) : Type ℓ where
    pub before : List A
    pub after : List A
    pub split : xs ≡ before ++ after
    pub placed : insert_stable less a xs ≡ before ++ a ∷ after
    pub not_worse : All (λ y. R y a) before
    pub worse : All (λ y. less a y ≡ true) after

-- `less` is the strict part of the total preorder `R`.
module _ {ℓ} {A : Type ℓ} (less : A → A → Bool) (R : A → A → Type 0)
    (lt_before : (a x y : A) → less a x ≡ true → R x y → less a y ≡ true)
    (ge→R : (a b : A) → less a b ≡ false → R b a)
    (R→ge : (a b : A) → R b a → less a b ≡ false) where
  insert_stable-Placed : (a : A) (xs : List A) → Sorted R xs → Placed less R a xs
  unfolding insert_stable
  insert_stable-Placed a [] s = record {
    before = [];
    after = [];
    split = refl;
    placed = refl;
    not_worse = tt;
    worse = tt;
  }
  insert_stable-Placed a (x ∷ xs) s = elim (Bool-cases (less a x)) [
    | inl lt ↦ record {
      before = [];
      after = x ∷ xs;
      split = refl;
      placed = rw (lt, insert_stable);
      not_worse = tt;
      worse = (lt, All-map (R x) _ xs (λ y r. lt_before a x y lt r) s.0);
    }
    | inr ge ↦
        let p = insert_stable-Placed a xs s.1 in
        record {
          before = x ∷ p.before;
          after = p.after;
          split = ap (◌∷◌ x) p.split;
          placed = rw (ge, insert_stable) (ap (◌∷◌ x) p.placed);
          not_worse = (ge→R a x ge, p.not_worse);
          worse = p.worse;
        }
  ]

  insert_last : (a : A) (xs : List A) → All (λ y. R y a) xs → insert_stable less a xs ≡ xs ++ a ∷ []
  unfolding insert_stable
  insert_last a [] h = refl
  insert_last a (x ∷ xs) h = rw (R→ge a x h.0, insert_stable) (ap (◌∷◌ x) (insert_last a xs h.1))

  sort_from-Sorted :
      (a : A) (done xs : List A)
      → Sorted R (done ++ xs)
      → sort_from less done (xs ++ a ∷ []) ≡ insert_stable less a (done ++ xs)
  unfolding sort_from
  sort_from-Sorted a done [] s = rw append-nil
  sort_from-Sorted a done (x ∷ xs) s =
      ap (λ d. sort_from less d (xs ++ a ∷ [])) (insert_last x done (Sorted-before R done x xs s))
      ∙ sort_from-Sorted a (done ++ x ∷ []) xs
          (subst (Sorted R) (sym (append_assoc done (x ∷ []) xs)) s)
      ∙ ap (insert_stable less a) (append_assoc done (x ∷ []) xs)

  -- Sorting a sorted slice with `a` at its end puts `a` behind its equals and moves nothing else.
  pub slice_stable-Placed :
      (a : A) (xs : List A)
      → Sorted R xs
      → (slice_stable less (xs ++ a ∷ []) ≡ insert_stable less a xs) × Placed less R a xs
  unfolding slice_stable
  slice_stable-Placed a xs s = (sort_from-Sorted a [] xs s, insert_stable-Placed a xs s)
