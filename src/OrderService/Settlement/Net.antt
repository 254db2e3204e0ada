-- ===== src/OrderService/Settlement/Net.antt =====
-- What the account updates of a settlement come to, in each currency, before and after they are
-- aggregated and sorted.
use cyptocurrency_exchange_b.Prelude.{
  String, ◌≡◌, refl, inl, inr, ap, Bool, true, false, List, [], ◌∷◌, ◌++◌, Bool-cases, str_eq,
  eq_iff, if◌then◌else◌, arith,
}
use cyptocurrency_exchange_b.Prelude.Int.{ℤ, pos, ◌+ℤ◌, parts_of_eq, eq_of_parts}
use cyptocurrency_exchange_b.Decimal.{
  DecimalLib, Decimal, value, zero_dec, add, neg, round8, mul, is_zero, greater_than,
}
use cyptocurrency_exchange_b.Decimal.Laws.{decimal_sums, is_zero→eq}
use cyptocurrency_exchange_b.Engine.Types.{Trade}
use cyptocurrency_exchange_b.Engine.OrderBook.{insert_stable, sort_from, slice_stable}
use cyptocurrency_exchange_b.Domain.Models.{Order}
use cyptocurrency_exchange_b.Domain.Events.{SettlementRequestedEvent}
use cyptocurrency_exchange_b.Store.Accounts.Balances.{share}
use cyptocurrency_exchange_b.OrderService.Settlement.{refund}
use cyptocurrency_exchange_b.OrderService.Updates.{
  AccountUpdate, trade_updates, same_key, merge, merge_all, nonzero, update_less,
  aggregate_and_sort,
}

module _ ⦃lib : DecimalLib⦄ where
  abbrev pub amount_in : String → AccountUpdate → ℤ
  amount_in c up = share c up.currency up.amount

  -- What a list of updates adds to all accounts in one currency.
  abbrev pub net : String → List AccountUpdate → ℤ
  net c [] = pos 0
  net c (up ∷ ups) = amount_in c up +ℤ net c ups

  pub net-append :
      (c : String) (xs ys : List AccountUpdate) → net c (xs ++ ys) ≡ net c xs +ℤ net c ys
  net-append c [] ys = eq_of_parts _ _ (omega decimal_sums)
  net-append c (x ∷ xs) ys =
      eq_of_parts _ _ (omega (decimal_sums, parts_of_eq _ _ (net-append c xs ys)))

  share_opposite : (c k : String) (d : Decimal) → share c k d +ℤ share c k (neg d) ≡ pos 0
  share_opposite c k d = elim (Bool-cases (str_eq k c)) [
    | inl same ↦ rw same (eq_of_parts _ _ (omega decimal_sums))
    | inr other ↦ rw other (eq_of_parts _ _ (omega decimal_sums))
  ]

  -- The four updates of a trade cancel out in every currency.
  pub trade_updates-net :
      (c : String) (trade : Trade) (taker buyer seller : Order) (parts : String × String)
      → net c (trade_updates trade taker buyer seller parts) ≡ pos 0
  trade_updates-net c trade taker buyer seller (base, quote) = eq_of_parts _ _ (
      omega (
        decimal_sums,
        parts_of_eq _ _ (share_opposite c quote (round8 (mul trade.price trade.quantity))),
        parts_of_eq _ _ (share_opposite c base (round8 trade.quantity)),
      ))

  pub refund-net :
      (c : String) (event : SettlementRequestedEvent) (taker : Order) (amount : Decimal)
      → net c (refund event taker amount) ≡ pos 0
  refund-net c event taker amount = elim (Bool-cases (greater_than amount zero_dec)) [
    | inl some_left ↦ rw some_left (none_added (str_eq event.locked_currency c))
    | inr nothing ↦ rw nothing refl
  ]
    where
      none_added : (b : Bool) → (if b then value zero_dec else pos 0) +ℤ pos 0 ≡ pos 0
      none_added true = eq_of_parts _ _ (omega decimal_sums)
      none_added false = eq_of_parts _ _ (omega decimal_sums)

  share-add : (c k : String) (a b : Decimal) → share c k (add a b) ≡ share c k a +ℤ share c k b
  share-add c k a b = elim (Bool-cases (str_eq k c)) [
    | inl same ↦ rw same (eq_of_parts _ _ (omega decimal_sums))
    | inr other ↦ rw other (eq_of_parts _ _ (omega decimal_sums))
  ]

  pub same_key-currency : (a b : AccountUpdate) → same_key a b ≡ true → a.currency ≡ b.currency
  same_key-currency a b h = ground (arith, eq_iff a.currency b.currency)

  pub same_key-user : (a b : AccountUpdate) → same_key a b ≡ true → a.user_id ≡ b.user_id
  same_key-user a b h = ground arith

  net-merge :
      (c : String) (up : AccountUpdate) (agg : List AccountUpdate)
      → net c (merge up agg) ≡ amount_in c up +ℤ net c agg
  unfolding merge
  net-merge c up [] = refl
  net-merge c up (a ∷ agg) = elim (Bool-cases (same_key a up)) [
    | inl same ↦
        rw (same, merge)
          (eq_of_parts _ _ (
            omega (
              decimal_sums,
              parts_of_eq _ _ (share-add c a.currency a.amount up.amount),
              parts_of_eq _ _ (ap (λ k. share c k up.amount) (same_key-currency a up same)),
            )))
    | inr other ↦
        rw (other, merge)
          (eq_of_parts _ _ (omega (decimal_sums, parts_of_eq _ _ (net-merge c up agg))))
  ]

  net-merge_all :
      (c : String) (agg ups : List AccountUpdate)
      → net c (merge_all agg ups) ≡ net c agg +ℤ net c ups
  unfolding merge_all
  net-merge_all c agg [] = eq_of_parts _ _ (omega decimal_sums)
  net-merge_all c agg (up ∷ ups) = eq_of_parts _ _ (
      omega (
        decimal_sums,
        parts_of_eq _ _ (net-merge_all c (merge up agg) ups),
        parts_of_eq _ _ (net-merge c up agg),
      ))

  pub share-zero : (c k : String) (d : Decimal) → is_zero d ≡ true → share c k d ≡ pos 0
  share-zero c k d z = elim (Bool-cases (str_eq k c)) [
    | inl same ↦ rw same (eq_of_parts _ _ (omega (arith, is_zero→eq d z)))
    | inr other ↦ rw other refl
  ]

  net-nonzero : (c : String) (agg : List AccountUpdate) → net c (nonzero agg) ≡ net c agg
  unfolding nonzero
  net-nonzero c [] = refl
  net-nonzero c (a ∷ agg) = elim (Bool-cases (is_zero a.amount)) [
    | inl z ↦ elim (Bool-cases (is_zero a.unlock)) [
      | inl u ↦
          rw (z, u, nonzero)
            (eq_of_parts _ _ (
              omega (
                decimal_sums,
                parts_of_eq _ _ (net-nonzero c agg),
                parts_of_eq _ _ (share-zero c a.currency a.amount z),
              )))
      | inr u ↦
          rw (z, u, nonzero)
            (eq_of_parts _ _ (omega (decimal_sums, parts_of_eq _ _ (net-nonzero c agg))))
    ]
    | inr nz ↦
        rw (nz, nonzero)
          (eq_of_parts _ _ (omega (decimal_sums, parts_of_eq _ _ (net-nonzero c agg))))
  ]

  net-insert :
      (less : AccountUpdate → AccountUpdate → Bool) (c : String) (a : AccountUpdate)
      (xs : List AccountUpdate)
      → net c (insert_stable less a xs) ≡ amount_in c a +ℤ net c xs
  unfolding insert_stable
  net-insert less c a [] = refl
  net-insert less c a (x ∷ xs) = elim (Bool-cases (less a x)) [
    | inl lt ↦ rw (lt, insert_stable) refl
    | inr ge ↦
        rw (ge, insert_stable)
          (eq_of_parts _ _ (omega (decimal_sums, parts_of_eq _ _ (net-insert less c a xs))))
  ]

  net-sort_from :
      (less : AccountUpdate → AccountUpdate → Bool) (c : String) (done xs : List AccountUpdate)
      → net c (sort_from less done xs) ≡ net c done +ℤ net c xs
  unfolding sort_from
  net-sort_from less c done [] = eq_of_parts _ _ (omega decimal_sums)
  net-sort_from less c done (x ∷ xs) = eq_of_parts _ _ (
      omega (
        decimal_sums,
        parts_of_eq _ _ (net-sort_from less c (insert_stable less x done) xs),
        parts_of_eq _ _ (net-insert less c x done),
      ))

  -- Aggregating and sorting changes no currency's sum.
  pub net-aggregate_and_sort :
      (c : String) (ups : List AccountUpdate) → net c (aggregate_and_sort ups) ≡ net c ups
  unfolding aggregate_and_sort slice_stable
  net-aggregate_and_sort c ups = eq_of_parts _ _ (
      omega (
        decimal_sums,
        parts_of_eq _ _ (net-sort_from update_less c [] (nonzero (merge_all [] ups))),
        parts_of_eq _ _ (net-nonzero c (merge_all [] ups)),
        parts_of_eq _ _ (net-merge_all c [] ups),
      ))
