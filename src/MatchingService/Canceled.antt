-- ===== src/MatchingService/Canceled.antt =====
-- What the matching service does with a request to cancel an order.
use mathlib.Core.List.{append-nil}
use cyptocurrency_exchange_b.Prelude.{
  ℕ, String, ◌≡◌, refl, ap, sym, subst, ◌∙◌, Bool, true, false, not, some, List, [], ◌∷◌, str_eq,
  ◌==◌, if◌then◌else◌,
}
use cyptocurrency_exchange_b.Decimal.{DecimalLib}
use cyptocurrency_exchange_b.Engine.Types.{side_buy}
use cyptocurrency_exchange_b.Engine.OrderBook.Sorted.{side_of}
use cyptocurrency_exchange_b.Engine.OrderBook.Removal.{Removes}
use cyptocurrency_exchange_b.Engine.Matching.{Engine, cancel}
use cyptocurrency_exchange_b.Engine.Matching.Cancel.{cancel-Removes}
use cyptocurrency_exchange_b.Engine.Manager.{EngineManager, find_engine, get_engine}
use cyptocurrency_exchange_b.MatchingService.Restore.Content.{match_side-buy}
use cyptocurrency_exchange_b.Domain.Events.{Topic, order_canceled, OrderCancelRequestedEvent}
use cyptocurrency_exchange_b.MatchingService.Bus.{
  Outcome, done, Sent, Subscriber, load_token, then_step, publish_retry,
}
use cyptocurrency_exchange_b.MatchingService.{
  with_token, match_side, write_engine, canceled_message, publish_canceled, update_book,
  handle_order_cancel_requested,
}
use cyptocurrency_exchange_b.MatchingService.Publishing.{
  Patient, Alike, same-Alike, Ends, with_token-Ends, publish_retry-Ends,
}
use cyptocurrency_exchange_b.MatchingService.Wanted.{book_of}
use cyptocurrency_exchange_b.MatchingService.Placed.{
  Announces, with_book, load_token-with_book, registered, update_book-Finishes,
}

module _ ⦃lib : DecimalLib⦄ where
  -- What tells that the order was taken out of the book, said without the code's own function.
  abbrev pub told_canceled : OrderCancelRequestedEvent → ℕ → Sent
  told_canceled event token = record {
    topic = Topic.settlements;
    key = event.symbol;
    event = order_canceled (record {
      symbol = event.symbol;
      order_id = event.order_id;
      user_id = event.user_id;
      fencing_token = token;
    });
  }

  abbrev pub canceled_messages : Bool → OrderCancelRequestedEvent → ℕ → List Sent
  canceled_messages has_event_bus event token =
      if has_event_bus then told_canceled event token ∷ [] else []

  publish_canceled-Ends :
      (fuel : ℕ) (event : OrderCancelRequestedEvent) (s : Subscriber)
      → Patient fuel s.env
      → Ends
          (publish_canceled fuel event s)
          (canceled_messages s.has_event_bus event (load_token s).0)
          s
  publish_canceled-Ends fuel event s patient = chosen s.has_event_bus
    where
      chosen :
          (b : Bool)
          → Ends
              (if b
                then with_token (λ token. publish_retry fuel (canceled_message event token)) s
                else some (done, s))
              (canceled_messages b event (load_token s).0)
              s
      chosen true =
          with_token-Ends (λ token. canceled_message event token ∷ []) s
            (λ token. publish_retry fuel (canceled_message event token))
            (λ token s1 alike.
              publish_retry-Ends fuel (canceled_message event token) s1
                (subst (Patient fuel) (sym alike.env) patient))
      chosen false = ((done, s), refl, same-Alike s, sym (append-nil s.bus))

  -- What was found decides what is sent.
  abbrev pub Reports :
      Bool → OrderCancelRequestedEvent → Engine → Subscriber → Outcome × Subscriber → Type 0
  Reports true event e s r =
      Announces (canceled_messages s.has_event_bus event (load_token s).0) (book_of event.symbol e)
        s r
  Reports false event e s r = (r.0 ≡ done) × (r.1.bus ≡ s.bus)

  pub record Removed (event : OrderCancelRequestedEvent) (s : Subscriber) (e e' : Engine)
      (found : Bool) (r : Outcome × Subscriber) : Type 0 where
    pub book : e' ≡ (cancel e event.order_id (match_side event.side)).0
    pub removed :
        let buy = event.side == side_buy in
        Removes event.order_id (side_of buy e) (side_of buy e') found
        × (side_of (not buy) e' ≡ side_of (not buy) e)
    pub engines :
        r.1.engine_manager
        ≡ write_engine event.symbol e' (get_engine event.symbol s.engine_manager).1
    pub engine : find_engine event.symbol r.1.engine_manager ≡ some e'
    pub others :
        (other : String)
        → str_eq event.symbol other ≡ false
        → find_engine other r.1.engine_manager ≡ find_engine other s.engine_manager
    pub sent : Reports found event e' s r

  -- If, from any call on, one of the next attempts to publish succeeds or finds the context
  -- canceled, then handling a request to cancel ends. In the engine of its symbol the first order
  -- with the ID was cut out of the named side, and then the cancellation was sent under the token as
  -- loaded then, and at most once the book after it, or nothing where the context was canceled; or no
  -- order of that side has the ID, and then the book is as it was and nothing was sent. No other
  -- engine has changed.
  pub handle_order_cancel_requested-Removed :
      (fuel : ℕ) (event : OrderCancelRequestedEvent) (s : Subscriber)
      → Patient fuel s.env
      → (r : Outcome × Subscriber) × (e' : Engine) × (found : Bool) × (handle_order_cancel_requested
            fuel event s
          ≡ some r)
        × Removed event s (get_engine event.symbol s.engine_manager).0 e' found r
  unfolding handle_order_cancel_requested
  handle_order_cancel_requested-Removed fuel event s patient =
      let (r, returns, alike, sent) = answer found in
      let (here, there) = registered event.symbol e' s.engine_manager in
      (
        r,
        e',
        found,
        returns,
        record {
          book = refl;
          removed =
              subst
                (λ buy.
                  Removes event.order_id (side_of buy e) (side_of buy e') found
                  × (side_of (not buy) e' ≡ side_of (not buy) e))
                (match_side-buy event.side)
                (cancel-Removes e event.order_id (match_side event.side));
          engines = alike.engine_manager;
          engine = ap (find_engine event.symbol) alike.engine_manager ∙ here;
          others = λ other apart. ap (find_engine other) alike.engine_manager ∙ there other apart;
          sent = sent;
        },
      )
    where
      e : Engine
      e = (get_engine event.symbol s.engine_manager).0

      engines : EngineManager
      engines = (get_engine event.symbol s.engine_manager).1

      e' : Engine
      e' = (cancel e event.order_id (match_side event.side)).0

      found : Bool
      found = (cancel e event.order_id (match_side event.side)).1

      s1 : Subscriber
      s1 = with_book event.symbol e' engines s

      answer :
          (b : Bool)
          → (r : Outcome × Subscriber) × ((if b
                then then_step (publish_canceled fuel event s1) (update_book event.symbol e')
                else some (done, s1))
              ≡ some r)
            × Alike s1 r.1
            × Reports b event e' s r
      answer true =
          let (r, returns, alike, sent) =
            update_book-Finishes (canceled_messages s.has_event_bus event (load_token s1).0)
              event.symbol e' s1 (publish_canceled fuel event s1)
              (publish_canceled-Ends fuel event s1 patient) in
          (
            r,
            returns,
            alike,
            subst
                (λ token.
                  Announces (canceled_messages s.has_event_bus event token)
                    (book_of event.symbol e') s r)
                (load_token-with_book event.symbol e' engines s) sent,
          )
      answer false = ((done, s1), refl, same-Alike s1, (refl, refl))
