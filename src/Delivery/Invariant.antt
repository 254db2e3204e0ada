-- ===== src/Delivery/Invariant.antt =====
-- What every step of the senders keeps: each stored message waits in the outbox or was sent, and
-- the IDs that are on their way to be removed are those of sent messages.
use cyptocurrency_exchange_b.Prelude.{
  suc, ◌≡◌, ◌≢◌, refl, ap, sym, subst, ◌∙◌, ◌⊎◌, inl, inr, Bool, true, false, List, [], ◌∷◌, ◌++◌,
  All, All-append, length, ltb, leb, if◌then◌else◌,
}
use cyptocurrency_exchange_b.Prelude.Order.{All-map}
use cyptocurrency_exchange_b.Decimal.{DecimalLib}
use cyptocurrency_exchange_b.Engine.Types.{Uuid}
use cyptocurrency_exchange_b.Store.World.{ok, World, Message}
use cyptocurrency_exchange_b.Store.Outbox.{mark_published_batch}
use cyptocurrency_exchange_b.Delivery.{
  raw, Sender, offer, after_attempt, hot_path, flush_batch, take_id, channel_capacity, early_flush,
}
use cyptocurrency_exchange_b.Delivery.Removal.{
  In, In-append_left, In-append_right, In-All, Present, AllRows, Present-append_left,
  Present-append_right,
}
use cyptocurrency_exchange_b.Delivery.Rounds.{From, SentId, SentId-mono}
use cyptocurrency_exchange_b.Delivery.Worker.{Serves, mark_published_batch-Serves}

module _ ⦃lib : DecimalLib⦄ where
  -- The message waits in the outbox, or the broker has it.
  abbrev pub IsSafe : World → Message → Type 0
  IsSafe w m = Present m w.db.outbox ⊎ In (raw m) w.bus

  abbrev pub Distinct : List Message → Type 0
  Distinct [] = Unit {0}
  Distinct (m ∷ history) = All (λ x. x.id ≢ m.id) history × Distinct history

  pub record Invariant (history : List Message) (s : Sender) : Type 0 where
    pub safe : All (IsSafe s.world) history
    pub rows : AllRows (From history) s.world.db.outbox
    pub published : All (SentId history s.world.bus) s.published
    pub batch : All (SentId history s.world.bus) s.batch
    pub distinct : Distinct history

  All-In : (P : Message → Type 0) (xs : List Message) → ((x : Message) → In x xs → P x) → All P xs
  All-In P [] f = tt
  All-In P (x ∷ xs) f = (f x (inl refl), All-In P xs (λ y i. f y (inr i)))

  Distinct-same :
      (history : List Message) (x y : Message)
      → Distinct history
      → In x history
      → In y history
      → x.id ≡ y.id
      → x ≡ y
  Distinct-same (m ∷ history) x y d (inl e) (inl f) same = sym e ∙ f
  Distinct-same (m ∷ history) x y d (inl e) (inr j) same =
      absurd
        (In-All (λ z. z.id ≢ m.id) y history j d.0 (sym same ∙ ap (λ (z : Message). z.id) (sym e)))
  Distinct-same (m ∷ history) x y d (inr i) (inl f) same =
      absurd (In-All (λ z. z.id ≢ m.id) x history i d.0 (same ∙ ap (λ (z : Message). z.id) (sym f)))
  Distinct-same (m ∷ history) x y d (inr i) (inr j) same = Distinct-same history x y d.1 i j same
  Distinct-same [] x y d i j same = absurd i

  -- A change of the world that serves the messages keeps the invariant.
  Serves-IsSafe :
      (history : List Message) (w w' : World)
      → Serves history w w'
      → Distinct history
      → All (IsSafe w) history
      → All (IsSafe w') history
  Serves-IsSafe history w w' h d safe =
      All-In (IsSafe w') history λ m i. kept m i (In-All (IsSafe w) m history i safe)
    where
      kept : (m : Message) → In m history → IsSafe w m → IsSafe w' m
      kept m i (inr sent) = inr (h.bus (raw m) sent)
      kept m i (inl waits) = served m i (h.present m waits)
        where
          served :
              (m : Message)
              → In m history
              → Present m w'.db.outbox ⊎ SentId history w'.bus m.id
              → IsSafe w' m
          served m i (inl stays) = inl stays
          served m i (inr (x, stored, same, sent)) = inr (
              subst (λ (y : Message). In (raw y) w'.bus) (Distinct-same history x m d stored i same)
                sent)

  pub world-Invariant :
      (history : List Message) (s : Sender) (w : World)
      → Serves history s.world w
      → Invariant history s
      → Invariant history (record s { world = w })
  world-Invariant history s w h v = record {
    safe = Serves-IsSafe history s.world w h v.distinct v.safe;
    rows = h.rows v.rows;
    published = SentId-mono history s.world.bus w.bus s.published h.bus v.published;
    batch = SentId-mono history s.world.bus w.bus s.batch h.bus v.batch;
    distinct = v.distinct;
  }

  pub same-Serves :
      (history : List Message) (w w' : World)
      → w'.db.outbox ≡ w.db.outbox
      → w'.bus ≡ w.bus
      → Serves history w w'
  same-Serves history w w' rows bus = record {
    bus = λ s i. subst (In s) (sym bus) i;
    present = λ m p. inl (subst (Present m) (sym rows) p);
    rows = λ r. subst (AllRows (From history)) (sym rows) r;
  }

  pub stores-Invariant :
      (history : List Message) (m : Message) (s : Sender) (w : World)
      → All (λ x. x.id ≢ m.id) history
      → w.db.outbox ≡ s.world.db.outbox ++ m ∷ []
      → w.bus ≡ s.world.bus
      → Invariant history s
      → Invariant (m ∷ history) (record s { world = w })
  stores-Invariant history m s w fresh rows bus v = record {
    safe = (
      inl (
          subst (Present m) (sym rows)
            (Present-append_right m s.world.db.outbox (m ∷ []) (inl (refl, refl)))),
      All-map (IsSafe s.world) (IsSafe w) history (λ x. stays x) v.safe,
    );
    rows = subst (AllRows (From (m ∷ history))) (sym rows) (
        All-append (λ x. From (m ∷ history) x.id (raw x)) s.world.db.outbox (m ∷ [])
          (All-map _ _ s.world.db.outbox (λ x (y, i, same, content). (y, inr i, same, content))
            v.rows)
          ((m, inl refl, refl, refl), tt));
    published = All-map _ _ s.published (λ id. known id) v.published;
    batch = All-map _ _ s.batch (λ id. known id) v.batch;
    distinct = (fresh, v.distinct);
  }
    where
      stays : (x : Message) → IsSafe s.world x → IsSafe w x
      stays x (inl p) =
          inl (subst (Present x) (sym rows) (Present-append_left x s.world.db.outbox (m ∷ []) p))
      stays x (inr i) = inr (subst (In (raw x)) (sym bus) i)

      known : (id : Uuid) → SentId history s.world.bus id → SentId (m ∷ history) w.bus id
      known id (y, i, same, sent) = (y, inr i, same, subst (In (raw y)) (sym bus) sent)

  offer-All :
      (P : Uuid → Type 0) (id : Uuid) (ids : List Uuid) → P id → All P ids → All P (offer id ids)
  offer-All P id ids p h = chosen (ltb (length ids) channel_capacity)
    where
      chosen : (b : Bool) → All P (if b then ids ++ id ∷ [] else ids)
      chosen true = All-append P ids (id ∷ []) h (p, tt)
      chosen false = h

  pub hot_path-Invariant :
      (history : List Message) (m : Message) (s : Sender)
      → In m history
      → Invariant history s
      → Invariant history (hot_path m s)
  unfolding hot_path
  hot_path-Invariant history m s i v = chosen (s.world.env.publishes s.world.calls)
    where
      w1 : World
      w1 = record s.world { calls = suc s.world.calls }

      w2 : World
      w2 = record w1 { bus = s.world.bus ++ raw m ∷ [] }

      served : Serves history s.world w2
      served = record {
        bus = λ x j. In-append_left x s.world.bus (raw m ∷ []) j;
        present = λ x p. inl p;
        rows = λ r. r;
      }

      sent : SentId history w2.bus m.id
      sent = (m, i, refl, In-append_right (raw m) s.world.bus (raw m ∷ []) (inl refl))

      chosen : (b : Bool) → Invariant history (after_attempt m.id s (ok b, if b then w2 else w1))
      chosen true =
          let v2 = world-Invariant history s w2 served v in
          record {
            safe = v2.safe;
            rows = v2.rows;
            published = offer-All (SentId history w2.bus) m.id s.published sent v2.published;
            batch = v2.batch;
            distinct = v2.distinct;
          }
      chosen false = world-Invariant history s w1 (same-Serves history s.world w1 refl refl) v

  pub flush_batch-Invariant :
      (history : List Message) (s : Sender)
      → Invariant history s
      → Invariant history (flush_batch s)
  unfolding flush_batch
  flush_batch-Invariant history s v =
      let w' = (mark_published_batch s.batch s.world).1 in
      let v2 =
        world-Invariant history s w' (mark_published_batch-Serves history s.batch s.world v.batch)
          v in
      record {
        safe = v2.safe;
        rows = v2.rows;
        published = v2.published;
        batch = tt;
        distinct = v2.distinct;
      }

  pub take_id-Invariant :
      (history : List Message) (s : Sender) (ids : List Uuid)
      → All (SentId history s.world.bus) ids
      → Invariant history s
      → Invariant history (take_id ids s)
  take_id-Invariant history s [] h v = v
  take_id-Invariant history s (id ∷ ids) h v = chosen (leb early_flush (length s'.batch))
    where
      s' : Sender
      s' = record s { published = ids; batch = s.batch ++ id ∷ [] }

      taken : Invariant history s'
      taken = record {
        safe = v.safe;
        rows = v.rows;
        published = h.1;
        batch = All-append (SentId history s.world.bus) s.batch (id ∷ []) v.batch (h.0, tt);
        distinct = v.distinct;
      }

      chosen : (b : Bool) → Invariant history (if b then flush_batch s' else s')
      chosen true = flush_batch-Invariant history s' taken
      chosen false = taken
