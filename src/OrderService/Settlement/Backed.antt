-- ===== src/OrderService/Settlement/Backed.antt =====
-- Every update with an amount is to an account that exists, before and after aggregation.
use cyptocurrency_exchange_b.Prelude.{
  String, ◌≡◌, ◌⊎◌, inl, inr, sym, subst, Bool, true, not, ◌||◌, List, [], ◌∷◌, Bool-cases, All,
}
use cyptocurrency_exchange_b.Prelude.Int.{pos, eq_of_parts}
use cyptocurrency_exchange_b.Decimal.{DecimalLib, value, zero_dec, is_zero, greater_than, add}
use cyptocurrency_exchange_b.Decimal.Laws.{decimal_sums}
use cyptocurrency_exchange_b.Engine.Types.{Uuid, Trade}
use cyptocurrency_exchange_b.Engine.OrderBook.{insert_stable, sort_from, slice_stable}
use cyptocurrency_exchange_b.Domain.Models.{Order}
use cyptocurrency_exchange_b.Domain.Events.{SettlementRequestedEvent}
use cyptocurrency_exchange_b.Store.Accounts.Balances.{HasKey}
use cyptocurrency_exchange_b.OrderService.Settlement.{refund}
use cyptocurrency_exchange_b.OrderService.Updates.{
  AccountUpdate, trade_updates, same_key, merge, merge_all, nonzero, update_less,
  aggregate_and_sort,
}
use cyptocurrency_exchange_b.OrderService.Settlement.Net.{same_key-currency, same_key-user}

module _ ⦃lib : DecimalLib⦄ (ks : List (Uuid × String)) where
  -- The update's account is among `ks`, unless its amount is zero.
  abbrev pub IsBacked : AccountUpdate → Type 0
  IsBacked up = HasKey up.user_id up.currency ks ⊎ (value up.amount ≡ pos 0)

  merged :
      (a up : AccountUpdate)
      → same_key a up ≡ true
      → IsBacked a
      → IsBacked up
      → IsBacked (record a { amount = add a.amount up.amount; unlock = add a.unlock up.unlock })
  merged a up same (inl k) h = inl k
  merged a up same (inr z) (inl k) = inl (
      subst (λ u. HasKey u a.currency ks) (sym (same_key-user a up same))
        (subst (λ t. HasKey up.user_id t ks) (sym (same_key-currency a up same)) k))
  merged a up same (inr z) (inr y) = inr (sum_zero)
    where
      sum_zero : value (add a.amount up.amount) ≡ pos 0
      sum_zero = rw (lib.value-add, z, y) (eq_of_parts _ _ (omega decimal_sums))

  merge-IsBacked :
      (up : AccountUpdate) (agg : List AccountUpdate)
      → IsBacked up
      → All IsBacked agg
      → All IsBacked (merge up agg)
  unfolding merge
  merge-IsBacked up [] h hs = (h, tt)
  merge-IsBacked up (a ∷ agg) h hs = elim (Bool-cases (same_key a up)) [
    | inl same ↦ rw (same, merge) (merged a up same hs.0 h, hs.1)
    | inr other ↦ rw (other, merge) (hs.0, merge-IsBacked up agg h hs.1)
  ]

  merge_all-IsBacked :
      (agg ups : List AccountUpdate)
      → All IsBacked agg
      → All IsBacked ups
      → All IsBacked (merge_all agg ups)
  unfolding merge_all
  merge_all-IsBacked agg [] hs us = hs
  merge_all-IsBacked agg (up ∷ ups) hs us =
      merge_all-IsBacked (merge up agg) ups (merge-IsBacked up agg us.0 hs) us.1

  nonzero-IsBacked : (agg : List AccountUpdate) → All IsBacked agg → All IsBacked (nonzero agg)
  unfolding nonzero
  nonzero-IsBacked [] hs = tt
  nonzero-IsBacked (a ∷ agg) hs =
      elim (Bool-cases (not (is_zero a.amount) || not (is_zero a.unlock))) [
        | inl stays ↦ rw (stays, nonzero) (hs.0, nonzero-IsBacked agg hs.1)
        | inr goes ↦ rw (goes, nonzero) (nonzero-IsBacked agg hs.1)
      ]

  insert-IsBacked :
      (less : AccountUpdate → AccountUpdate → Bool) (a : AccountUpdate) (xs : List AccountUpdate)
      → IsBacked a
      → All IsBacked xs
      → All IsBacked (insert_stable less a xs)
  unfolding insert_stable
  insert-IsBacked less a [] h hs = (h, tt)
  insert-IsBacked less a (x ∷ xs) h hs = elim (Bool-cases (less a x)) [
    | inl lt ↦ rw (lt, insert_stable) (h, hs)
    | inr ge ↦ rw (ge, insert_stable) (hs.0, insert-IsBacked less a xs h hs.1)
  ]

  sort_from-IsBacked :
      (less : AccountUpdate → AccountUpdate → Bool) (done xs : List AccountUpdate)
      → All IsBacked done
      → All IsBacked xs
      → All IsBacked (sort_from less done xs)
  unfolding sort_from
  sort_from-IsBacked less done [] ds xs = ds
  sort_from-IsBacked less done (x ∷ xs) ds hs =
      sort_from-IsBacked less (insert_stable less x done) xs (insert-IsBacked less x done hs.0 ds)
        hs.1

  pub aggregate_and_sort-IsBacked :
      (ups : List AccountUpdate) → All IsBacked ups → All IsBacked (aggregate_and_sort ups)
  unfolding aggregate_and_sort slice_stable
  aggregate_and_sort-IsBacked ups h =
      sort_from-IsBacked update_less [] (nonzero (merge_all [] ups)) tt
        (nonzero-IsBacked (merge_all [] ups) (merge_all-IsBacked [] ups tt h))

  pub refund-IsBacked :
      (event : SettlementRequestedEvent) (taker : Order) (amount : lib.Carrier)
      → All IsBacked (refund event taker amount)
  refund-IsBacked event taker amount = elim (Bool-cases (greater_than amount zero_dec)) [
    | inl some_left ↦ rw some_left (inr lib.value-zero, tt)
    | inr nothing ↦ rw nothing tt
  ]

  -- A user with an account in both currencies of a symbol.
  abbrev pub TradesIn : String × String → Uuid → Type 0
  TradesIn (base, quote) user_id = HasKey user_id base ks × HasKey user_id quote ks

  pub trade_updates-IsBacked :
      (trade : Trade) (taker buyer seller : Order) (parts : String × String)
      → TradesIn parts buyer.user_id
      → TradesIn parts seller.user_id
      → All IsBacked (trade_updates trade taker buyer seller parts)
  trade_updates-IsBacked trade taker buyer seller (base, quote) b s =
      (inl b.1, (inl b.0, (inl s.0, (inl s.1, tt))))
