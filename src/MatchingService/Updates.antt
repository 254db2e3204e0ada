-- ===== src/MatchingService/Updates.antt =====
-- `OnOrderBookUpdate`: what it leaves alone, and the message that it may send.
use cyptocurrency_exchange_b.Prelude.{
  String, ◌≡◌, refl, ap, ◌∙◌, ◌⊎◌, inl, inr, Bool, true, false, [], ◌∷◌, ◌++◌, if◌then◌else◌,
}
use cyptocurrency_exchange_b.Decimal.{DecimalLib}
use cyptocurrency_exchange_b.Engine.Types.{OrderBookSnapshot}
use cyptocurrency_exchange_b.MatchingService.Bus.{
  Attempt, delivered, failed, canceled, Sent, Subscriber, called, deliver, load_token, publish_once,
}
use cyptocurrency_exchange_b.MatchingService.{
  write_cache, update_cache, book_message, publish_book, on_order_book_update,
}
use cyptocurrency_exchange_b.MatchingService.Publishing.{
  Alike, Alike-trans, same-Alike, load_token-Alike, called-Alike,
}

module _ ⦃lib : DecimalLib⦄ where
  -- At most one message was sent.
  abbrev pub Told : Sent → Subscriber → Subscriber → Type 0
  Told m s s' = Alike s s' × ((s'.bus ≡ s.bus) ⊎ (s'.bus ≡ s.bus ++ m ∷ []))

  write_cache-Alike :
      (fails : Bool) (snapshot : OrderBookSnapshot) (s : Subscriber)
      → Alike s (write_cache fails snapshot s) × ((write_cache fails snapshot s).bus ≡ s.bus)
  write_cache-Alike true snapshot s = (same-Alike s, refl)
  write_cache-Alike false snapshot s = (
    record { engine_manager = refl; env = refl; has_event_bus = refl; has_cache_repo = refl },
    refl,
  )

  update_cache-Alike :
      (snapshot : OrderBookSnapshot) (s : Subscriber)
      → Alike s (update_cache snapshot s) × ((update_cache snapshot s).bus ≡ s.bus)
  update_cache-Alike snapshot s = chosen s.has_cache_repo
    where
      written : Subscriber
      written = write_cache (s.env.cache_fails s.calls) snapshot (called s)

      chosen :
          (b : Bool) → Alike s (if b then written else s) × ((if b then written else s).bus ≡ s.bus)
      chosen true =
          let (alike, bus) = write_cache-Alike (s.env.cache_fails s.calls) snapshot (called s) in
          (Alike-trans s (called s) _ (called-Alike s) alike, bus)
      chosen false = (same-Alike s, refl)

  publish_once-Told : (m : Sent) (s : Subscriber) → Told m s (publish_once m s)
  unfolding publish_once
  publish_once-Told m s = chosen (s.env.publish s.calls)
    where
      chosen : (a : Attempt) → Told m s (deliver a m (called s))
      chosen delivered = (
        record { engine_manager = refl; env = refl; has_event_bus = refl; has_cache_repo = refl },
        inr refl,
      )
      chosen failed = (called-Alike s, inl refl)
      chosen canceled = (called-Alike s, inl refl)

  publish_book-Told :
      (symbol : String) (snapshot : OrderBookSnapshot) (s : Subscriber)
      → Told (book_message symbol snapshot) s (publish_book symbol snapshot s)
  publish_book-Told symbol snapshot s = chosen s.has_event_bus
    where
      m : Sent
      m = book_message symbol snapshot

      chosen : (b : Bool) → Told m s (if b then publish_once m s else s)
      chosen true = publish_once-Told m s
      chosen false = (same-Alike s, inl refl)

  Told-after : (m : Sent) (s t u : Subscriber) → Alike s t → t.bus ≡ s.bus → Told m t u → Told m s u
  Told-after m s t u alike same (alike2, inl kept) =
      (Alike-trans s t u alike alike2, inl (kept ∙ same))
  Told-after m s t u alike same (alike2, inr sent) =
      (Alike-trans s t u alike alike2, inr (sent ∙ ap (λ bus. bus ++ m ∷ []) same))

  pub on_order_book_update-Told :
      (symbol : String) (snapshot : OrderBookSnapshot) (s : Subscriber)
      → Told
          (book_message symbol (record snapshot { fencing_token = (load_token s).0 }))
          s
          (on_order_book_update symbol snapshot s)
  unfolding on_order_book_update
  on_order_book_update-Told symbol snapshot s =
      let (token, s1) = load_token s in
      let stamped : OrderBookSnapshot = record snapshot { fencing_token = token } in
      let s2 = update_cache stamped s1 in
      let m = book_message symbol stamped in
      let (alike1, bus1) = load_token-Alike s in
      let (alike2, bus2) = update_cache-Alike stamped s1 in
      Told-after m s s1 _ alike1 bus1
        (Told-after m s1 s2 _ alike2 bus2 (publish_book-Told symbol stamped s2))
