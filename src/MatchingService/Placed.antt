-- ===== src/MatchingService/Placed.antt =====
-- What the matching service does with an order that was placed: its engine, and what it sends.
use mathlib.Core.List.{append-nil}
use cyptocurrency_exchange_b.Prelude.{
  ℕ, String, ◌≡◌, refl, ap, sym, subst, ◌∙◌, ◌⊎◌, inl, inr, false, ◌&&◌, Option, none, some, List,
  [], ◌∷◌, ◌++◌, Bool-cases, str_eq, if◌then◌else◌,
}
use cyptocurrency_exchange_b.Decimal.{DecimalLib}
use cyptocurrency_exchange_b.Engine.Matching.{Engine, Processed, process, get_order_book_snapshot}
use cyptocurrency_exchange_b.Engine.Matching.Process.{process-Runs}
use cyptocurrency_exchange_b.Engine.Manager.{EngineManager, find_engine, get_engine}
use cyptocurrency_exchange_b.Domain.Events.{OrderPlacedEvent}
use cyptocurrency_exchange_b.MatchingService.Bus.{
  Outcome, done, ctx_canceled, Sent, Subscriber, called, load_token, store_token, then_step,
  publish_each,
}
use cyptocurrency_exchange_b.MatchingService.{
  convert_to_matching_order, write_engine, needs_settlement, publish_results, on_order_book_update,
  book_depth, update_book, finish_order, processed_step, handle_order_placed,
}
use cyptocurrency_exchange_b.MatchingService.Engines.{
  str_eq_refl, find_engine-write_engine, get_engine-found, get_engine-other,
}
use cyptocurrency_exchange_b.MatchingService.Publishing.{
  Patient, Alike, Alike-trans, same-Alike, Publishes, Ends, with_token-Ends, publish_each-Ends,
}
use cyptocurrency_exchange_b.MatchingService.Wanted.{
  taken_as, convert-taken_as, book_of, results, wanted,
}
use cyptocurrency_exchange_b.MatchingService.Updates.{Told, on_order_book_update-Told}

module _ ⦃lib : DecimalLib⦄ where
  -- What a handler sends that has `ms` to say and then the book: all of `ms` and the book at most
  -- once; or, where the context was canceled, some of `ms` from the front, and not all.
  abbrev pub Announces : List Sent → (ℕ → Sent) → Subscriber → Outcome × Subscriber → Type 0
  Announces ms book s (Outcome.done, s') =
      (s'.bus ≡ s.bus ++ ms) ⊎ ((token : ℕ) × (s'.bus ≡ s.bus ++ ms ++ book token ∷ []))
  Announces ms book s (Outcome.ctx_canceled, s') =
      (front : List Sent) × (m : Sent) × (back : List Sent) × (ms ≡ front ++ m ∷ back)
      × (s'.bus ≡ s.bus ++ front)
  Announces ms book s (Outcome.bad_payload, s') = ⊥

  -- How a handler ends that publishes messages and then the book.
  abbrev pub Finishes : Option (Outcome × Subscriber) → List Sent → (ℕ → Sent) → Subscriber → Type 0
  Finishes o ms book s =
      (r : Outcome × Subscriber) × (o ≡ some r) × Alike s r.1 × Announces ms book s r

  pub update_book-Finishes :
      (ms : List Sent) (symbol : String) (e : Engine) (s : Subscriber)
      (o : Option (Outcome × Subscriber))
      → Ends o ms s
      → Finishes (then_step o (update_book symbol e)) ms (book_of symbol e) s
  update_book-Finishes ms symbol e s o (r, returns, alike, sent) =
      subst (λ o. Finishes (then_step o (update_book symbol e)) ms (book_of symbol e) s)
        (sym returns) (go r alike sent)
    where
      told :
          (s1 s2 : Subscriber)
          → s1.bus ≡ s.bus ++ ms
          → Told (book_of symbol e (load_token s1).0) s1 s2
          → Announces ms (book_of symbol e) s (done, s2)
      told s1 s2 sent (alike, inl kept) = inl (kept ∙ sent)
      told s1 s2 sent (alike, inr more) = inr (
        (load_token s1).0,
        more ∙ ap (λ bus. bus ++ book_of symbol e (load_token s1).0 ∷ []) sent,
      )

      go :
          (r : Outcome × Subscriber)
          → Alike s r.1
          → Publishes ms s r
          → Finishes (then_step (some r) (update_book symbol e)) ms (book_of symbol e) s
      go (Outcome.done, s1) alike sent =
          let snapshot = get_order_book_snapshot e book_depth in
          let s2 = on_order_book_update symbol snapshot s1 in
          let news = on_order_book_update-Told symbol snapshot s1 in
          ((done, s2), refl, Alike-trans s s1 s2 alike news.0, told s1 s2 sent news)
      go (Outcome.ctx_canceled, s1) alike sent = ((ctx_canceled, s1), refl, alike, sent)
      go (Outcome.bad_payload, s1) alike sent = absurd sent

  publish_results-Ends :
      (fuel : ℕ) (event : OrderPlacedEvent) (p : Processed) (s : Subscriber)
      → Patient fuel s.env
      → Ends (publish_results fuel event p s) (wanted s.has_event_bus event p (load_token s).0) s
  unfolding publish_results
  publish_results-Ends fuel event p s patient =
      elim (Bool-cases (needs_settlement event p && s.has_event_bus)) [
        | inl e ↦
            rw (e, publish_results)
              (with_token-Ends (results event p) s
                (λ token. publish_each fuel (results event p token))
                (λ token s1 alike.
                  publish_each-Ends fuel (results event p token) s1
                    (subst (Patient fuel) (sym alike.env) patient)))
        | inr e ↦ rw (e, publish_results) ((done, s), refl, same-Alike s, sym (append-nil s.bus))
      ]

  -- The results of `Process`, the engine that has them, and what was sent.
  pub record Handled (event : OrderPlacedEvent) (s : Subscriber) (p : Processed)
      (r : Outcome × Subscriber) : Type 0 where
    pub processed :
        process
          (s.env.outside s.calls)
          (get_engine event.symbol s.engine_manager).0
          (taken_as event)
        ≡ some p
    pub engines :
        r.1.engine_manager
        ≡ write_engine event.symbol p.book (get_engine event.symbol s.engine_manager).1
    pub engine : find_engine event.symbol r.1.engine_manager ≡ some p.book
    pub others :
        (other : String)
        → str_eq event.symbol other ≡ false
        → find_engine other r.1.engine_manager ≡ find_engine other s.engine_manager
    pub sent :
        Announces
          (wanted s.has_event_bus event p (load_token (called s)).0)
          (book_of event.symbol p.book)
          s
          r

  -- the subscriber after `Process`
  abbrev pub with_book : String → Engine → EngineManager → Subscriber → Subscriber
  with_book symbol e engines s = record s { engine_manager = write_engine symbol e engines }

  pub load_token-with_book :
      (symbol : String) (e : Engine) (engines : EngineManager) (s : Subscriber)
      → (load_token (with_book symbol e engines s)).0 ≡ (load_token s).0
  unfolding load_token
  load_token-with_book symbol e engines s = chosen (s.env.set_token s.calls)
    where
      chosen :
          (o : Option ℕ)
          → (store_token o (called (with_book symbol e engines s))).fencing_token
            ≡ (store_token o (called s)).fencing_token
      chosen none = refl
      chosen (some token) = refl

  pub registered :
      (symbol : String) (e : Engine) (m : EngineManager)
      → let m' = write_engine symbol e (get_engine symbol m).1 in
        (find_engine symbol m' ≡ some e)
        × ((other : String)
            → str_eq symbol other ≡ false
            → find_engine other m' ≡ find_engine other m)
  registered symbol e m =
      let write = λ (other : String).
        find_engine-write_engine symbol other e (get_engine symbol m).0 (get_engine symbol m).1
          (get_engine-found symbol m) in
      (
        write symbol
            ∙ ap (λ b. if b then some e else find_engine symbol (get_engine symbol m).1)
                (str_eq_refl symbol),
        λ other apart.
            write other
            ∙ ap (λ b. if b then some e else find_engine other (get_engine symbol m).1) apart
            ∙ get_engine-other symbol other m apart,
      )

  -- If, from any call on, one of the next attempts to publish succeeds or finds the context
  -- canceled, then handling a placed order ends. The engine of the order's symbol, a new one if there
  -- was none, has run `Process` once on the order that the event describes, and no other engine has
  -- changed. If there is an event bus and the order traded, is a market order, or has nothing left,
  -- then what was sent is the request for settlement with all trades, the rest, the locked amount and
  -- the token as loaded then, and then each trade; otherwise none of this was sent. At most once the
  -- book after the order followed; or, where the context was canceled, only a front part was sent,
  -- without the book.
  pub handle_order_placed-Handled :
      (fuel : ℕ) (event : OrderPlacedEvent) (s : Subscriber)
      → Patient fuel s.env
      → (r : Outcome × Subscriber) × (p : Processed) × (handle_order_placed fuel event s ≡ some r)
        × Handled event s p r
  unfolding handle_order_placed finish_order
  handle_order_placed-Handled fuel event s patient =
      let (e, engines) = get_engine event.symbol s.engine_manager in
      let (p, processed, _) =
        process-Runs (s.env.outside s.calls) e (convert_to_matching_order event) in
      let s1 = with_book event.symbol p.book engines (called s) in
      let (r, returns, alike, sent) =
        update_book-Finishes (wanted s.has_event_bus event p (load_token s1).0) event.symbol p.book
          s1 (publish_results fuel event p s1) (publish_results-Ends fuel event p s1 patient) in
      let (here, there) = registered event.symbol p.book s.engine_manager in
      (
        r,
        p,
        ap (λ o. processed_step o (finish_order fuel event engines) s) processed ∙ returns,
        record {
          processed =
              subst
                (λ o.
                  process (s.env.outside s.calls) (get_engine event.symbol s.engine_manager).0 o
                  ≡ some p)
                (convert-taken_as event) processed;
          engines = alike.engine_manager;
          engine = ap (find_engine event.symbol) alike.engine_manager ∙ here;
          others = λ other apart. ap (find_engine other) alike.engine_manager ∙ there other apart;
          sent =
              subst
                (λ token.
                  Announces (wanted s.has_event_bus event p token) (book_of event.symbol p.book) s1
                    r)
                (load_token-with_book event.symbol p.book engines (called s)) sent;
        },
      )
