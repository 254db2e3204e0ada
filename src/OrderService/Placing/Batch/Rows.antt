-- ===== src/OrderService/Placing/Batch/Rows.antt =====
-- What the batch statements add to the orders and to the outbox.
use mathlib.Core.List.{append-nil, append_assoc}
use cyptocurrency_exchange_b.Prelude.{
  ℕ, suc, ◌≡◌, refl, ap, sym, ◌∙◌, Bool, true, false, Option, none, some, List, [], ◌∷◌, ◌++◌, map,
  if◌then◌else◌,
}
use cyptocurrency_exchange_b.Decimal.{DecimalLib}
use cyptocurrency_exchange_b.Domain.Models.{Order}
use cyptocurrency_exchange_b.Domain.Events.{Topic, Event}
use cyptocurrency_exchange_b.Store.World.{Db, World, Message, pure, statement, ◌>>◌}
use cyptocurrency_exchange_b.Store.World.After.{After, After-bind, After-statement}
use cyptocurrency_exchange_b.Store.Orders.{find_order, insert_all, stored_all, batch_create_orders}
use cyptocurrency_exchange_b.Store.Outbox.{
  has_message, status_pending, stamp, insert_rows, copied, uuid_or_zero, batch_insert,
}

module _ ⦃lib : DecimalLib⦄ where
  abbrev pub Appended : {A : Type 0} → List A → List A → Option (List A) → Type 0
  Appended rows more none = Unit {0}
  Appended rows more (some rows') = rows' ≡ rows ++ more

  Appended-cons :
      {A : Type 0} (rows : List A) (x : A) (xs : List A) (o : Option (List A))
      → Appended (rows ++ x ∷ []) xs o
      → Appended rows (x ∷ xs) o
  Appended-cons rows x xs none h = tt
  Appended-cons rows x xs (some rows') h = h ∙ append_assoc rows (x ∷ []) xs

  insert_all-Appended : (os rows : List Order) → Appended rows os (insert_all rows os)
  unfolding insert_all
  insert_all-Appended [] rows = sym (append-nil rows)
  insert_all-Appended (o ∷ os) rows = chosen (find_order o.id rows) (
      Appended-cons rows o os (insert_all (rows ++ o ∷ []) os)
        (insert_all-Appended os (rows ++ o ∷ [])))
    where
      chosen :
          (x : Option Order)
          → Appended rows (o ∷ os) (insert_all (rows ++ o ∷ []) os)
          → Appended rows
              (o ∷ os)
              (elim x [ none ↦ insert_all (rows ++ o ∷ []) os | some _ ↦ none ])
      chosen none h = h
      chosen (some _) h = tt

  pub batch_create_orders-adds :
      (os : List Order) (w : World)
      → After
          (batch_create_orders os w)
          (λ _ w'. w'.db ≡ record w.db { orders = w.db.orders ++ os })
  unfolding batch_create_orders
  batch_create_orders-adds [] w =
      ap (λ rows. record w.db { orders = rows }) (sym (append-nil w.db.orders))
  batch_create_orders-adds (o ∷ os) w =
      let Q =
        λ (_ : Unit {0}) (w' : World). w'.db ≡ record w.db { orders = w.db.orders ++ o ∷ os } in
      After-statement (λ db. stored_all (insert_all db.orders (o ∷ os)) db) w Q
        (stored (insert_all w.db.orders (o ∷ os)) (insert_all-Appended (o ∷ os) w.db.orders))
    where
      stored :
          (x : Option (List Order))
          → Appended w.db.orders (o ∷ os) x
          → After
              ((stored_all x w.db).0, record w { db = (stored_all x w.db).1; calls = suc w.calls })
              (λ _ w'. w'.db ≡ record w.db { orders = w.db.orders ++ o ∷ os })
      stored none h = tt
      stored (some rows) h = ap (λ rows. record w.db { orders = rows }) h

  insert_rows-Appended : (ms rows : List Message) → Appended rows ms (insert_rows rows ms)
  unfolding insert_rows
  insert_rows-Appended [] rows = sym (append-nil rows)
  insert_rows-Appended (m ∷ ms) rows = chosen (has_message m.id rows) (
      Appended-cons rows m ms (insert_rows (rows ++ m ∷ []) ms)
        (insert_rows-Appended ms (rows ++ m ∷ [])))
    where
      chosen :
          (b : Bool)
          → Appended rows (m ∷ ms) (insert_rows (rows ++ m ∷ []) ms)
          → Appended rows (m ∷ ms) (if b then none else insert_rows (rows ++ m ∷ []) ms)
      chosen true h = tt
      chosen false h = h

  copy-adds :
      (rows : List Message) (w : World)
      → After
          (statement (λ db. copied (insert_rows db.outbox rows) db) w)
          (λ _ w'. w'.db ≡ record w.db { outbox = w.db.outbox ++ rows })
  copy-adds rows w =
      let Q = λ (_ : Unit {0}) (w' : World). w'.db ≡ record w.db { outbox = w.db.outbox ++ rows } in
      After-statement (λ db. copied (insert_rows db.outbox rows) db) w Q
        (stored (insert_rows w.db.outbox rows) (insert_rows-Appended rows w.db.outbox))
    where
      stored :
          (x : Option (List Message))
          → Appended w.db.outbox rows x
          → After
              ((copied x w.db).0, record w { db = (copied x w.db).1; calls = suc w.calls })
              (λ _ w'. w'.db ≡ record w.db { outbox = w.db.outbox ++ rows })
      stored none h = tt
      stored (some xs) h = ap (λ xs. record w.db { outbox = xs }) h

  -- What a message says, and where it goes.
  abbrev pub says : Message → Topic × Event
  says m = (m.topic, m.payload)

  stamp-says :
      (at : ℕ) (ms : List Message) (w : World)
      → After (stamp at ms w) (λ ms' w'. (map says ms' ≡ map says ms) × (w'.db ≡ w.db))
  unfolding stamp
  stamp-says at [] w = (refl, refl)
  stamp-says at (m ∷ ms) w =
      let w1 = (uuid_or_zero w).1 in
      let id : ℕ = elim (w.env.new_v7 w.calls) [ none ↦ 0 | some id ↦ id ] in
      let first : Message = record m { id = id; created_at = at; status = status_pending } in
      After-bind (stamp at ms) (λ rest. pure (first ∷ rest)) w1
        (λ ms' w'. (map says ms' ≡ map says ms) × (w'.db ≡ w.db))
        (λ ms' w'. (map says ms' ≡ says m ∷ map says ms) × (w'.db ≡ w.db)) (stamp-says at ms w1)
        (λ ms' w' h. (ap (λ xs. says m ∷ xs) h.0, h.1))

  pub batch_insert-adds :
      (ms : List Message) (w : World)
      → After (batch_insert ms w) (λ ms' w'.
        (w'.db ≡ record w.db { outbox = w.db.outbox ++ ms' }) × (map says ms' ≡ map says ms))
  unfolding batch_insert
  batch_insert-adds [] w =
      (ap (λ rows. record w.db { outbox = rows }) (sym (append-nil w.db.outbox)), refl)
  batch_insert-adds (m ∷ ms) w =
      let w1 = record w { calls = suc w.calls } in
      After-bind (stamp (w.env.unix_milli w.calls) (m ∷ ms))
        (λ rows. statement (λ db. copied (insert_rows db.outbox rows) db) >> pure rows) w1
        (λ ms' w'. (map says ms' ≡ map says (m ∷ ms)) × (w'.db ≡ w.db))
        (λ ms' w'.
          (w'.db ≡ record w.db { outbox = w.db.outbox ++ ms' })
          × (map says ms' ≡ map says (m ∷ ms)))
        (stamp-says (w.env.unix_milli w.calls) (m ∷ ms) w1)
        (λ rows w2 h.
          After-bind (statement (λ db. copied (insert_rows db.outbox rows) db)) (λ _. pure rows) w2
            (λ _ w'. w'.db ≡ record w2.db { outbox = w2.db.outbox ++ rows }) _ (copy-adds rows w2)
            (λ _ w3 same.
              (same ∙ ap (λ (db : Db). record db { outbox = db.outbox ++ rows }) h.1, h.0)))
