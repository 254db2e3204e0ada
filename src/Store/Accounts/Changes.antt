-- ===== src/Store/Accounts/Changes.antt =====
-- Changes of the accounts one after the other.
use cyptocurrency_exchange_b.Prelude.{String, refl, subst, ◌∙◌, List}
use cyptocurrency_exchange_b.Prelude.Int.{pos, ℤ, ◌+ℤ◌, parts_of_eq, eq_of_parts}
use cyptocurrency_exchange_b.Decimal.{DecimalLib}
use cyptocurrency_exchange_b.Decimal.Laws.{decimal_sums}
use cyptocurrency_exchange_b.Domain.Models.{Account}
use cyptocurrency_exchange_b.Store.Accounts.Balances.{Updated}

module _ ⦃lib : DecimalLib⦄ where
  pub Updated-refl : (c : String) (rows : List Account) → Updated c (pos 0) rows rows
  Updated-refl c rows = record {
    keys = refl;
    held = eq_of_parts _ _ (omega decimal_sums);
    sound = λ h. h;
  }

  pub Updated-trans :
      (c : String) (d e : ℤ) (xs ys zs : List Account)
      → Updated c d xs ys
      → Updated c e ys zs
      → Updated c (d +ℤ e) xs zs
  Updated-trans c d e xs ys zs u v = record {
    keys = v.keys ∙ u.keys;
    held = eq_of_parts _ _ (omega (decimal_sums, parts_of_eq _ _ u.held, parts_of_eq _ _ v.held));
    sound = λ h. v.sound (u.sound h);
  }

  pub Updated-still :
      (c : String) (xs ys zs : List Account)
      → Updated c (pos 0) xs ys
      → Updated c (pos 0) ys zs
      → Updated c (pos 0) xs zs
  Updated-still c xs ys zs u v =
      subst (λ d. Updated c d xs zs) (eq_of_parts _ _ (omega decimal_sums))
        (Updated-trans c (pos 0) (pos 0) xs ys zs u v)
