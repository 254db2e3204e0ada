-- ===== src/MatchingService/Keeps.antt =====
-- What every message leaves true of the engines.
use cyptocurrency_exchange_b.Prelude.{
  ℕ, String, ◌≡◌, refl, sym, subst, Bool, true, false, Option, none, some, str_eq, ◌==◌,
  if◌then◌else◌,
}
use cyptocurrency_exchange_b.Prelude.Int.{pos, ◌<ℤ◌}
use cyptocurrency_exchange_b.Decimal.{DecimalLib, value}
use cyptocurrency_exchange_b.Engine.Types.{type_limit, new_order, new_market_order}
use cyptocurrency_exchange_b.Engine.Matching.{Processed, process, new_engine}
use cyptocurrency_exchange_b.Engine.Matching.Keeps.{HasQuantity}
use cyptocurrency_exchange_b.Engine.Matching.Valid.{IsValid, process-IsValid}
use cyptocurrency_exchange_b.Engine.Matching.Cancel.{cancel-IsValid}
use cyptocurrency_exchange_b.Engine.Manager.{get_engine}
use cyptocurrency_exchange_b.Domain.Events.{OrderPlacedEvent, OrderCancelRequestedEvent}
use cyptocurrency_exchange_b.MatchingService.Bus.{
  Outcome, done, bad_payload, Subscriber, Step, load_token,
}
use cyptocurrency_exchange_b.MatchingService.{
  Codec, match_side, convert_to_matching_order, decoded, dispatch, handle_events,
  handle_order_placed, handle_order_cancel_requested,
}
use cyptocurrency_exchange_b.MatchingService.Engines.{AllEngines, get_engine-All, write_engine-All}
use cyptocurrency_exchange_b.MatchingService.Publishing.{Patient, Alike, load_token-Alike}
use cyptocurrency_exchange_b.MatchingService.Wanted.{convert-taken_as}
use cyptocurrency_exchange_b.MatchingService.Placed.{handle_order_placed-Handled}
use cyptocurrency_exchange_b.MatchingService.Canceled.{handle_order_cancel_requested-Removed}

module _ ⦃lib : DecimalLib⦄ where
  pub new_engine-IsValid : (symbol : String) → IsValid (new_engine symbol)
  new_engine-IsValid symbol = record {
    sorted = record { bids = tt; asks = tt };
    bids = tt;
    asks = tt;
    apart = tt;
  }

  pub convert-HasQuantity :
      (event : OrderPlacedEvent)
      → pos 0 <ℤ value event.quantity
      → HasQuantity (convert_to_matching_order event)
  unfolding convert_to_matching_order
  convert-HasQuantity event q = chosen (event.type == type_limit)
    where
      chosen :
          (b : Bool)
          → HasQuantity (
              if b
              then new_order event.order_id event.user_id
                  (match_side event.side)
                  event.price
                  event.quantity
              else new_market_order event.order_id event.user_id
                  (match_side event.side)
                  event.quantity)
      chosen true = q
      chosen false = q

  pub process_same : (o : Option Processed) (p p' : Processed) → o ≡ some p → o ≡ some p' → p ≡ p'
  process_same o p p' h k = cc

  -- How a step ends that keeps the engines valid.
  abbrev pub KeepsValid : Option (Outcome × Subscriber) → Type 0
  KeepsValid o = (r : Outcome × Subscriber) × (o ≡ some r) × AllEngines IsValid r.1.engine_manager

  handle_order_placed-IsValid :
      (fuel : ℕ) (event : OrderPlacedEvent) (s : Subscriber)
      → Patient fuel s.env
      → pos 0 <ℤ value event.quantity
      → AllEngines IsValid s.engine_manager
      → KeepsValid (handle_order_placed fuel event s)
  handle_order_placed-IsValid fuel event s patient q valid =
      let (r, p, returns, h) = handle_order_placed-Handled fuel event s patient in
      let (here, rest) =
        get_engine-All IsValid event.symbol s.engine_manager (new_engine-IsValid event.symbol)
          valid in
      let (p', processed, v) =
        process-IsValid (s.env.outside s.calls) _ _ here (convert-HasQuantity event q) in
      (
        r,
        returns,
        subst (AllEngines IsValid) (sym h.engines) (
            write_engine-All IsValid event.symbol p.book _
              (subst (λ (x : Processed). IsValid x.book)
                (process_same _ p' p processed (
                  subst
                    (λ o.
                      process (s.env.outside s.calls) (get_engine event.symbol s.engine_manager).0 o
                      ≡ some p)
                    (sym (convert-taken_as event)) h.processed))
                v)
              rest),
      )

  handle_order_cancel_requested-IsValid :
      (fuel : ℕ) (event : OrderCancelRequestedEvent) (s : Subscriber)
      → Patient fuel s.env
      → AllEngines IsValid s.engine_manager
      → KeepsValid (handle_order_cancel_requested fuel event s)
  handle_order_cancel_requested-IsValid fuel event s patient valid =
      let (r, e', found, returns, h) = handle_order_cancel_requested-Removed fuel event s patient in
      let (here, rest) =
        get_engine-All IsValid event.symbol s.engine_manager (new_engine-IsValid event.symbol)
          valid in
      (
        r,
        returns,
        subst (AllEngines IsValid) (sym h.engines) (
            write_engine-All IsValid event.symbol e' _
              (subst IsValid (sym h.book)
                (cancel-IsValid _ event.order_id (match_side event.side) here))
              rest),
      )

  kept :
      (s : Subscriber) (o : Outcome)
      → AllEngines IsValid s.engine_manager
      → KeepsValid (some (o, s))
  kept s o valid = ((o, s), refl, valid)

  decoded-IsValid :
      {A : Type 0} (o : Option A) (k : A → Step) (s : Subscriber)
      → AllEngines IsValid s.engine_manager
      → ((a : A) → o ≡ some a → KeepsValid (k a s))
      → KeepsValid (decoded o k s)
  decoded-IsValid none k s valid h = kept s bad_payload valid
  decoded-IsValid (some a) k s valid h = h a refl

  -- A placed order that the message announces has a quantity above zero.
  abbrev pub AnnouncesQuantity : (c : Codec) → c.Bytes → Type 0
  AnnouncesQuantity c value =
      (event : OrderPlacedEvent)
      → c.order_placed value ≡ some event
      → pos 0 <ℤ lib.value event.quantity

  dispatch-IsValid :
      (c : Codec) (fuel : ℕ) (value : c.Bytes) (event_type : String) (s : Subscriber)
      → Patient fuel s.env
      → AnnouncesQuantity c value
      → AllEngines IsValid s.engine_manager
      → KeepsValid (dispatch c fuel value event_type s)
  unfolding dispatch
  dispatch-IsValid c fuel value event_type s patient q valid =
      chosen (str_eq event_type "order.placed") (str_eq event_type "order.cancel_requested")
    where
      chosen :
          (placed requested : Bool)
          → KeepsValid (
              if placed
              then decoded (c.order_placed value) (handle_order_placed fuel) s
              else if requested
              then decoded (c.order_cancel_requested value) (handle_order_cancel_requested fuel) s
              else some (done, s))
      chosen true requested =
          decoded-IsValid (c.order_placed value) (handle_order_placed fuel) s valid
            (λ event h. handle_order_placed-IsValid fuel event s patient (q event h) valid)
      chosen false true =
          decoded-IsValid (c.order_cancel_requested value) (handle_order_cancel_requested fuel) s
            valid (λ event h. handle_order_cancel_requested-IsValid fuel event s patient valid)
      chosen false false = kept s done valid

  -- From valid engines, handling any message ends, and leaves valid engines: in price order, with
  -- quantities above zero, and not crossed. It is assumed that a placed order that the message
  -- announces has a quantity above zero, and that, from any call on, one of the next attempts to
  -- publish succeeds or finds the context canceled.
  pub handle_events-IsValid :
      (c : Codec) (fuel : ℕ) (value : c.Bytes) (s : Subscriber)
      → Patient fuel s.env
      → AnnouncesQuantity c value
      → AllEngines IsValid s.engine_manager
      → KeepsValid (handle_events c fuel value s)
  unfolding handle_events
  handle_events-IsValid c fuel value s patient q valid = chosen (token == 0)
    where
      token : ℕ
      token = (load_token s).0

      s1 : Subscriber
      s1 = (load_token s).1

      alike : Alike s s1
      alike = (load_token-Alike s).0

      valid1 : AllEngines IsValid s1.engine_manager
      valid1 = subst (AllEngines IsValid) (sym alike.engine_manager) valid

      patient1 : Patient fuel s1.env
      patient1 = subst (Patient fuel) (sym alike.env) patient

      chosen :
          (b : Bool)
          → KeepsValid (
              if b
              then some (done, s1)
              else decoded (c.event_type value) (dispatch c fuel value) s1)
      chosen true = kept s1 done valid1
      chosen false =
          decoded-IsValid (c.event_type value) (dispatch c fuel value) s1 valid1
            (λ event_type h. dispatch-IsValid c fuel value event_type s1 patient1 q valid1)
