-- ===== src/Delivery/Rounds.antt =====
-- One round of the outbox worker: what it sends, what it keeps, and what it removes.
use cyptocurrency_exchange_b.Prelude.{
  ℕ, suc, ◌≡◌, sym, inl, Bool, true, false, List, [], ◌∷◌, ◌++◌, All, if◌then◌else◌,
}
use cyptocurrency_exchange_b.Prelude.Order.{All-map}
use cyptocurrency_exchange_b.Decimal.{DecimalLib}
use cyptocurrency_exchange_b.Engine.Types.{Uuid}
use cyptocurrency_exchange_b.Domain.Events.{Sent}
use cyptocurrency_exchange_b.Store.World.{
  db_error, Result, ok, err, World, Message, Action, pure, ◌>>=◌, ◌>>◌,
}
use cyptocurrency_exchange_b.Store.World.After.{After, chain}
use cyptocurrency_exchange_b.Store.Outbox.{increment_retry, retried}
use cyptocurrency_exchange_b.Delivery.{raw, publish_pending}
use cyptocurrency_exchange_b.Delivery.Removal.{
  In, In-append_left, In-append_right, Present, AllRows, retried-Present, retried-All,
}

module _ ⦃lib : DecimalLib⦄ (history : List Message) where
  -- The ID and the content are those of a message that was stored.
  abbrev pub From : Uuid → Sent → Type 0
  From id s = (m : Message) × In m history × (m.id ≡ id) × (raw m ≡ s)

  -- The ID is that of a message that was stored and that the broker has.
  abbrev pub SentId : List Sent → Uuid → Type 0
  SentId bus id = (m : Message) × In m history × (m.id ≡ id) × In (raw m) bus

  -- What was sent stays sent, and rows stay, for their messages.
  pub record Keeps (w w' : World) : Type 0 where
    pub bus : (s : Sent) → In s w.bus → In s w'.bus
    pub present : (m : Message) → Present m w.db.outbox → Present m w'.db.outbox
    pub rows : AllRows From w.db.outbox → AllRows From w'.db.outbox

  pub Keeps-trans : (w1 w2 w3 : World) → Keeps w1 w2 → Keeps w2 w3 → Keeps w1 w3
  Keeps-trans w1 w2 w3 h k = record {
    bus = λ s i. k.bus s (h.bus s i);
    present = λ m p. k.present m (h.present m p);
    rows = λ r. k.rows (h.rows r);
  }

  pub called-Keeps : (w : World) (n : ℕ) → Keeps w (record w { calls = n })
  called-Keeps w n = record { bus = λ s i. i; present = λ m p. p; rows = λ r. r }

  pub SentId-mono :
      (bus bus' : List Sent) (ids : List Uuid)
      → ((s : Sent) → In s bus → In s bus')
      → All (SentId bus) ids
      → All (SentId bus') ids
  SentId-mono bus bus' ids grows h =
      All-map (SentId bus) (SentId bus') ids
        (λ id (m, stored, same, sent). (m, stored, same, grows (raw m) sent)) h

  -- A part of a round: it keeps what was there, and the IDs that it returns are of sent messages.
  abbrev pub Sends : World → Result (List Uuid) × World → Type 0
  Sends w r = Keeps w r.1 × After r (λ ids w'. All (SentId w'.bus) ids)

  Sends-after :
      (w w1 : World) (r : Result (List Uuid) × World) → Keeps w w1 → Sends w1 r → Sends w r
  Sends-after w w1 r h (k, sent) = (Keeps-trans w w1 r.1 h k, sent)

  more_sent :
      (id : Uuid) (w : World) (r : Result (List Uuid) × World)
      → SentId w.bus id
      → Sends w r
      → Sends w (let (x, w') = r in elim x [ ok ids ↦ (ok (id ∷ ids), w') | err e ↦ (err e, w') ])
  more_sent id w (ok ids, w') (m, stored, same, sent) (k, all) =
      (k, ((m, stored, same, k.bus (raw m) sent), all))
  more_sent id w (err e, w') first (k, all) = (k, tt)

  increment_retry-Sends :
      (id : Uuid) (rest : Action (List Uuid)) (w : World)
      → ((w' : World) → Sends w' (rest w'))
      → Sends w ((increment_retry id >> rest) w)
  unfolding increment_retry
  increment_retry-Sends id rest w h = chosen (w.env.fails w.calls)
    where
      w1 : World
      w1 = record w { calls = suc w.calls }

      w2 : World
      w2 = record w1 { db = record w.db { outbox = retried id w.db.outbox } }

      k : Keeps w w2
      k = record {
        bus = λ s i. i;
        present = λ m p. retried-Present id m w.db.outbox p;
        rows = λ r. retried-All From id w.db.outbox r;
      }

      chosen :
          (b : Bool)
          → Sends w
              (chain {A = Unit {0}} (if b then (err db_error, w1) else (ok tt, w2)) (λ _. rest))
      chosen true = (called-Keeps w (suc w.calls), tt)
      chosen false = Sends-after w w2 (rest w2) k (h w2)

  pub publish_pending-Sends :
      (msgs : List Message) (w : World) → AllRows From msgs → Sends w (publish_pending msgs w)
  unfolding publish_pending
  publish_pending-Sends [] w h = (called-Keeps w w.calls, tt)
  publish_pending-Sends (m ∷ msgs) w h =
      chosen (λ w'. publish_pending-Sends msgs w' h.1) (w.env.publishes w.calls)
    where
      w1 : World
      w1 = record w { calls = suc w.calls }

      w2 : World
      w2 = record w1 { bus = w.bus ++ raw m ∷ [] }

      k : Keeps w w2
      k = record {
        bus = λ s i. In-append_left s w.bus (raw m ∷ []) i;
        present = λ x p. p;
        rows = λ r. r;
      }

      first : From m.id (raw m) → SentId w2.bus m.id
      first (x, stored, same, content) =
          (x, stored, same, In-append_right (raw x) w.bus (raw m ∷ []) (inl (sym content)))

      chosen :
          ((w' : World) → Sends w' (publish_pending msgs w'))
          → (b : Bool)
          → Sends w (
              (if b
                  then (publish_pending msgs >>= λ ids. pure (m.id ∷ ids))
                  else (increment_retry m.id >> publish_pending msgs))
                (if b then w2 else w1))
      chosen ih true =
          Sends-after w w2 _ k (more_sent m.id w2 (publish_pending msgs w2) (first h.0) (ih w2))
      chosen ih false =
          Sends-after w w1 _ (called-Keeps w (suc w.calls))
            (increment_retry-Sends m.id (publish_pending msgs) w1 ih)
