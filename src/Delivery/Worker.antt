-- ===== src/Delivery/Worker.antt =====
-- The transaction of the outbox worker, and the removal of published messages.
use cyptocurrency_exchange_b.Prelude.{
  ℕ, zero, suc, ◌-◌, ltb, ◌⊎◌, inl, inr, Bool, true, false, List, [], ◌∷◌, All, take, Bool-cases,
  if◌then◌else◌,
}
use cyptocurrency_exchange_b.Decimal.{DecimalLib}
use cyptocurrency_exchange_b.Engine.Types.{Uuid}
use cyptocurrency_exchange_b.Engine.OrderBook.{insert_stable, sort_from, slice_stable}
use cyptocurrency_exchange_b.Domain.Events.{Sent}
use cyptocurrency_exchange_b.Store.World.{
  db_error, Result, ok, err, World, Message, Action, settle, exec_tx, ◌>>=◌,
}
use cyptocurrency_exchange_b.Store.World.After.{After, chain}
use cyptocurrency_exchange_b.Store.Outbox.{
  select, is_due, fetch_pending, mark_published_batch, count_pending, without_all,
}
use cyptocurrency_exchange_b.Delivery.{
  raw, grace_period, publish_pending, worker_body, process_round,
}
use cyptocurrency_exchange_b.Delivery.Removal.{
  In, In-All, Present, AllRows, without_all-Present, without_all-All, named_or_not,
}
use cyptocurrency_exchange_b.Delivery.Rounds.{
  From, SentId, Keeps, called-Keeps, Sends, publish_pending-Sends,
}

-- Sorting, selecting and cutting keep what holds of every element.
module _ {A : Type 0} (P : A → Type 0) where
  take-All : (n : ℕ) (xs : List A) → All P xs → All P (take n xs)
  take-All zero xs h = tt
  take-All (suc n) [] h = tt
  take-All (suc n) (x ∷ xs) h = (h.0, take-All n xs h.1)

  insert_stable-All :
      (less : A → A → Bool) (a : A) (xs : List A) → P a → All P xs → All P (insert_stable less a xs)
  unfolding insert_stable
  insert_stable-All less a [] p h = (p, tt)
  insert_stable-All less a (x ∷ xs) p h = elim (Bool-cases (less a x)) [
    | inl lt ↦ rw (lt, insert_stable) (p, h)
    | inr ge ↦ rw (ge, insert_stable) (h.0, insert_stable-All less a xs p h.1)
  ]

  sort_from-All :
      (less : A → A → Bool) (done xs : List A)
      → All P done
      → All P xs
      → All P (sort_from less done xs)
  unfolding sort_from
  sort_from-All less done [] hd h = hd
  sort_from-All less done (x ∷ xs) hd h =
      sort_from-All less (insert_stable less x done) xs (insert_stable-All less x done h.0 hd) h.1

  slice_stable-All : (less : A → A → Bool) (xs : List A) → All P xs → All P (slice_stable less xs)
  unfolding slice_stable
  slice_stable-All less xs h = sort_from-All less [] xs tt h

module _ ⦃lib : DecimalLib⦄ (history : List Message) where
  select-All :
      (p : Message → Bool) (rows : List Message)
      → AllRows (From history) rows
      → AllRows (From history) (select p rows)
  select-All p [] h = tt
  select-All p (x ∷ rows) h = elim (Bool-cases (p x)) [
    | inl hit ↦ rw hit (h.0, select-All p rows h.1)
    | inr miss ↦ rw miss (select-All p rows h.1)
  ]

  -- What was sent stays sent; a row stays, unless its ID is that of a message that was sent.
  pub record Serves (w w' : World) : Type 0 where
    pub bus : (s : Sent) → In s w.bus → In s w'.bus
    pub present :
        (m : Message) → Present m w.db.outbox → Present m w'.db.outbox ⊎ SentId history w'.bus m.id
    pub rows : AllRows (From history) w.db.outbox → AllRows (From history) w'.db.outbox

  Keeps→Serves : (w w' : World) → Keeps history w w' → Serves w w'
  Keeps→Serves w w' k = record { bus = k.bus; present = λ m p. inl (k.present m p); rows = k.rows }

  Keeps-Serves : (w w1 w2 : World) → Keeps history w w1 → Serves w1 w2 → Serves w w2
  Keeps-Serves w w1 w2 h k = record {
    bus = λ s i. k.bus s (h.bus s i);
    present = λ m p. k.present m (h.present m p);
    rows = λ r. k.rows (h.rows r);
  }

  pub mark_published_batch-Serves :
      (ids : List Uuid) (w : World)
      → All (SentId history w.bus) ids
      → Serves w (mark_published_batch ids w).1
  unfolding mark_published_batch
  mark_published_batch-Serves [] w h = Keeps→Serves w w (called-Keeps history w w.calls)
  mark_published_batch-Serves (id ∷ ids) w h = chosen (w.env.fails w.calls)
    where
      w1 : World
      w1 = record w { calls = suc w.calls }

      w2 : World
      w2 = record w1 { db = record w.db { outbox = without_all (id ∷ ids) w.db.outbox } }

      kept :
          (m : Message) → Present m w.db.outbox → Present m w2.db.outbox ⊎ SentId history w.bus m.id
      kept m p = elim (named_or_not m.id (id ∷ ids)) [
        | inl named ↦ inr (In-All (SentId history w.bus) m.id (id ∷ ids) named h)
        | inr other ↦ inl (without_all-Present (id ∷ ids) m w.db.outbox other p)
      ]

      chosen :
          (b : Bool)
          → Serves w
              (if◌then◌else◌ {A = Result (Unit {0}) × World} b (err db_error, w1) (ok tt, w2)).1
      chosen true = Keeps→Serves w w1 (called-Keeps history w (suc w.calls))
      chosen false = record {
        bus = λ s i. i;
        present = kept;
        rows = λ r. without_all-All (From history) (id ∷ ids) w.db.outbox r;
      }

  settle-Serves :
      (w : World) (r : Result (Unit {0}) × World) → Serves w r.1 → Serves w (settle r w.db).1
  settle-Serves w (ok a, w1) h = elim (Bool-cases (w1.env.fails w1.calls)) [
    | inl down ↦ rw down (record { bus = h.bus; present = λ m p. inl p; rows = λ r. r })
    | inr up ↦ rw up (record { bus = h.bus; present = h.present; rows = h.rows })
  ]
  settle-Serves w (err e, w1) h = record { bus = h.bus; present = λ m p. inl p; rows = λ r. r }

  fetch_pending-rows :
      (batch_size grace : ℕ) (w : World)
      → AllRows (From history) w.db.outbox
      → let r = fetch_pending batch_size grace w in
        Keeps history w r.1 × After r (λ msgs _. AllRows (From history) msgs)
  unfolding fetch_pending
  fetch_pending-rows batch_size grace w h = elim (Bool-cases (w.env.fails (suc w.calls))) [
    | inl down ↦ rw down (called-Keeps history w (suc (suc w.calls)), tt)
    | inr up ↦ rw up (
      called-Keeps history w (suc (suc w.calls)),
      take-All Stored batch_size _ (
          slice_stable-All Stored (λ a b. ltb a.created_at b.created_at) _
            (select-All (is_due (w.env.unix_milli w.calls - grace)) w.db.outbox h)),
    )
  ]
    where
      Stored : Message → Type 0
      Stored x = From history x.id (raw x)

  worker_body-Serves :
      (batch_size : ℕ) (w : World)
      → AllRows (From history) w.db.outbox
      → Serves w (worker_body batch_size w).1
  unfolding worker_body
  worker_body-Serves batch_size w h =
      fetched (fetch_pending batch_size grace_period w)
        (fetch_pending-rows batch_size grace_period w h)
    where
      published :
          (w1 : World) (r : Result (List Uuid) × World)
          → Sends history w1 r
          → Serves w1 (chain r mark_published_batch).1
      published w1 (ok ids, w2) (k, sent) =
          Keeps-Serves w1 w2 _ k (mark_published_batch-Serves ids w2 sent)
      published w1 (err e, w2) (k, sent) = Keeps→Serves w1 w2 k

      fetched :
          (r : Result (List Message) × World)
          → Keeps history w r.1 × After r (λ msgs _. AllRows (From history) msgs)
          → Serves w (chain r (λ msgs. publish_pending msgs >>= λ ids. mark_published_batch ids)).1
      fetched (ok msgs, w1) (k, rows) =
          Keeps-Serves w w1 _ k
            (published w1 (publish_pending msgs w1) (publish_pending-Sends history msgs w1 rows))
      fetched (err e, w1) (k, rows) = Keeps→Serves w w1 k

  count_pending-Keeps : (w : World) → Keeps history w (count_pending w).1
  unfolding count_pending
  count_pending-Keeps w = elim (Bool-cases (w.env.fails w.calls)) [
    | inl down ↦ rw down (called-Keeps history w (suc w.calls))
    | inr up ↦ rw up (called-Keeps history w (suc w.calls))
  ]

  exec_tx-Serves :
      (body : Action (Unit {0})) (w : World)
      → Serves (record w { calls = suc w.calls }) (body (record w { calls = suc w.calls })).1
      → Serves w (exec_tx body w).1
  exec_tx-Serves body w h = elim (Bool-cases (w.env.fails w.calls)) [
    | inl down ↦ rw down (Keeps→Serves w _ (called-Keeps history w (suc w.calls)))
    | inr up ↦
        rw up (
          Keeps-Serves w w1 _ (called-Keeps history w (suc w.calls)) (settle-Serves w1 (body w1) h))
  ]
    where
      w1 : World
      w1 = record w { calls = suc w.calls }

  -- Whatever fails in a round of the worker, what was sent stays sent, and a message leaves the
  -- outbox only if a stored message with its ID was sent.
  pub process_round-Serves :
      (batch_size : ℕ) (w : World)
      → AllRows (From history) w.db.outbox
      → Serves w (process_round batch_size w).1
  unfolding process_round
  process_round-Serves batch_size w h =
      let w1 = (count_pending w).1 in
      let k = count_pending-Keeps w in
      let w2 : World = record w1 { calls = suc w1.calls } in
      Keeps-Serves w w1 _ k
        (exec_tx-Serves (worker_body batch_size) w1 (worker_body-Serves batch_size w2 (k.rows h)))
