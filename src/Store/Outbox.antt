-- ===== src/Store/Outbox.antt =====
-- internal/infrastructure/outbox/repository.go over the `outbox_messages` table.
use cyptocurrency_exchange_b.Prelude.{
  ℕ, suc, ◌+◌, ◌-◌, String, Bool, false, ◌&&◌, ◌||◌, Option, none, some, List, [], ◌∷◌, ◌++◌, take,
  length, leb, ltb, ◌==◌, if◌then◌else◌,
}
use cyptocurrency_exchange_b.Decimal.{DecimalLib}
use cyptocurrency_exchange_b.Engine.Types.{Uuid}
use cyptocurrency_exchange_b.Engine.OrderBook.{slice_stable}
use cyptocurrency_exchange_b.Domain.Events.{Topic, Event}
use cyptocurrency_exchange_b.Store.World.{
  db_error, Result, ok, err, Db, Message, Action, statement, now, pure, ◌>>=◌, ◌>>◌,
}

abbrev pub status_pending : ℕ
status_pending = 0

abbrev pub status_published : ℕ
status_published = 1

module _ ⦃lib : DecimalLib⦄ where
  -- The fields of a message that its caller fills in.
  abbrev pub draft : Uuid → String → Topic → String → Event → Message
  draft aggregate_id aggregate_type topic partition_key payload = record {
    id = 0;
    aggregate_id = aggregate_id;
    aggregate_type = aggregate_type;
    topic = topic;
    partition_key = partition_key;
    payload = payload;
    status = status_pending;
    retry_count = 0;
    created_at = 0;
    published_at = 0;
  }

  -- `msg.ID, _ = uuid.NewV7()`: the zero UUID if that fails
  abbrev pub uuid_or_zero : Action Uuid
  uuid_or_zero w = (
    ok (elim (w.env.new_v7 w.calls) [ none ↦ 0 | some id ↦ id ]),
    record w { calls = suc w.calls },
  )

  abbrev pub has_message : Uuid → List Message → Bool
  has_message id [] = false
  has_message id (m ∷ rows) = m.id == id || has_message id rows

  abbrev pub insert_row : Message → Action (Unit {0})
  insert_row m = statement λ db.
      if has_message m.id db.outbox
      then (err db_error, db)
      else (ok tt, record db { outbox = db.outbox ++ m ∷ [] })

  -- the message comes back as the caller sees it through its pointer
  unfoldable pub insert : Message → Action Message
  insert msg = do
    id ← uuid_or_zero
    at ← now
    let m : Message = record msg { id = id; created_at = at; status = status_pending }
    insert_row m
    pure m

  -- IDs for the messages of a batch, which share their time
  unfoldable pub stamp : ℕ → List Message → Action (List Message)
  stamp at [] = pure []
  stamp at (msg ∷ msgs) = do
    id ← uuid_or_zero
    rest ← stamp at msgs
    pure (record msg { id = id; created_at = at; status = status_pending } ∷ rest)

  unfoldable pub insert_rows : List Message → List Message → Option (List Message)
  insert_rows rows [] = some rows
  insert_rows rows (m ∷ ms) =
      let more = insert_rows (rows ++ m ∷ []) ms in if has_message m.id rows then none else more

  abbrev pub copied : Option (List Message) → Db → Result (Unit {0}) × Db
  copied none db = (err db_error, db)
  copied (some rows) db = (ok tt, record db { outbox = rows })

  -- in a transaction; `CopyFrom` is one statement
  unfoldable pub batch_insert : List Message → Action (List Message)
  unfolding stamp insert_rows
  batch_insert [] = pure []
  batch_insert (m ∷ ms) = do
    at ← now
    rows ← stamp at (m ∷ ms)
    statement (λ db. copied (insert_rows db.outbox rows) db)
    pure rows

  abbrev pub is_due : ℕ → Message → Bool
  is_due threshold m = m.status == status_pending && leb m.created_at threshold

  abbrev pub select : (Message → Bool) → List Message → List Message
  select p [] = []
  select p (m ∷ rows) = let rest = select p rows in if p m then m ∷ rest else rest

  -- oldest first, at most `batch_size`, none younger than the grace period (in milliseconds)
  unfoldable pub fetch_pending : ℕ → ℕ → Action (List Message)
  fetch_pending batch_size grace_period = do
    at ← now
    statement λ db. (
      ok (
          take batch_size (
            slice_stable (λ a b. ltb a.created_at b.created_at)
              (select (is_due (at - grace_period)) db.outbox))),
      db,
    )

  abbrev pub without : Uuid → List Message → List Message
  without id [] = []
  without id (m ∷ rows) = let rest = without id rows in if m.id == id then rest else m ∷ rest

  unfoldable pub mark_published : Uuid → Action (Unit {0})
  mark_published id = statement λ db. (ok tt, record db { outbox = without id db.outbox })

  abbrev pub without_all : List Uuid → List Message → List Message
  without_all [] rows = rows
  without_all (id ∷ ids) rows = without_all ids (without id rows)

  unfoldable pub mark_published_batch : List Uuid → Action (Unit {0})
  mark_published_batch [] w = (ok tt, w)
  mark_published_batch (id ∷ ids) w =
      statement (λ db. (ok tt, record db { outbox = without_all (id ∷ ids) db.outbox })) w

  abbrev pub retried : Uuid → List Message → List Message
  retried id [] = []
  retried id (m ∷ rows) =
      let rest = retried id rows in
      if m.id == id then record m { retry_count = m.retry_count + 1 } ∷ rest else m ∷ rest

  unfoldable pub increment_retry : Uuid → Action (Unit {0})
  increment_retry id = statement λ db. (ok tt, record db { outbox = retried id db.outbox })

  unfoldable pub count_pending : Action ℕ
  count_pending =
      statement λ db. (ok (length (select (λ m. m.status == status_pending) db.outbox)), db)
