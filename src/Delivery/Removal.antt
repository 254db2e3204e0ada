-- ===== src/Delivery/Removal.antt =====
-- Rows of the outbox by their messages, under a change of the retry count and a removal by ID.
use cyptocurrency_exchange_b.Prelude.{
  ◌+◌, ◌≡◌, ◌≢◌, subst, ◌⊎◌, inl, inr, Bool, true, false, List, [], ◌∷◌, ◌++◌, All, Bool-cases,
  ◌==◌, ==_iff, if◌then◌else◌, arith,
}
use cyptocurrency_exchange_b.Decimal.{DecimalLib}
use cyptocurrency_exchange_b.Engine.Types.{Uuid}
use cyptocurrency_exchange_b.Domain.Events.{Sent}
use cyptocurrency_exchange_b.Store.World.{Message}
use cyptocurrency_exchange_b.Store.Outbox.{without, without_all, retried}
use cyptocurrency_exchange_b.Delivery.{raw}

-- `x` stands in the list.
abbrev pub In : {A : Type 0} → A → List A → Type 0
In x [] = ⊥
In x (y ∷ ys) = (y ≡ x) ⊎ In x ys

pub In-append_left : {A : Type 0} (x : A) (xs ys : List A) → In x xs → In x (xs ++ ys)
In-append_left x (z ∷ xs) ys (inl e) = inl e
In-append_left x (z ∷ xs) ys (inr h) = inr (In-append_left x xs ys h)
In-append_left x [] ys h = absurd h

pub In-append_right : {A : Type 0} (x : A) (xs ys : List A) → In x ys → In x (xs ++ ys)
In-append_right x [] ys h = h
In-append_right x (z ∷ xs) ys h = inr (In-append_right x xs ys h)

pub In-All : {A : Type 0} (P : A → Type 0) (x : A) (xs : List A) → In x xs → All P xs → P x
In-All P x (y ∷ ys) (inl e) h = subst P e h.0
In-All P x (y ∷ ys) (inr i) h = In-All P x ys i h.1
In-All P x [] i h = absurd i

module _ ⦃lib : DecimalLib⦄ where
  -- The same message, whatever its retry count.
  abbrev pub Same : Message → Message → Type 0
  Same m x = (x.id ≡ m.id) × (raw x ≡ raw m)

  -- A row for the message is there.
  abbrev pub Present : Message → List Message → Type 0
  Present m [] = ⊥
  Present m (x ∷ rows) = Same m x ⊎ Present m rows

  pub Present-append_left :
      (m : Message) (xs ys : List Message) → Present m xs → Present m (xs ++ ys)
  Present-append_left m [] ys h = absurd h
  Present-append_left m (x ∷ xs) ys (inl e) = inl e
  Present-append_left m (x ∷ xs) ys (inr h) = inr (Present-append_left m xs ys h)

  pub Present-append_right :
      (m : Message) (xs ys : List Message) → Present m ys → Present m (xs ++ ys)
  Present-append_right m [] ys h = h
  Present-append_right m (x ∷ xs) ys h = inr (Present-append_right m xs ys h)

  pub retried-Present :
      (id : Uuid) (m : Message) (rows : List Message) → Present m rows → Present m (retried id rows)
  retried-Present id m [] h = h
  retried-Present id m (x ∷ rows) h = chosen (x.id == id) (retried-Present id m rows) h
    where
      chosen :
          (b : Bool)
          → (Present m rows → Present m (retried id rows))
          → Present m (x ∷ rows)
          → Present m (
              if b
              then record x { retry_count = x.retry_count + 1 } ∷ retried id rows
              else x ∷ retried id rows)
      chosen true later (inl same) = inl same
      chosen true later (inr h) = inr (later h)
      chosen false later (inl same) = inl same
      chosen false later (inr h) = inr (later h)

  without-Present :
      (id : Uuid) (m : Message) (rows : List Message)
      → m.id ≢ id
      → Present m rows
      → Present m (without id rows)
  without-Present id m [] ne h = h
  without-Present id m (x ∷ rows) ne (inl (same, content)) =
      let other : (x.id == id) ≡ false = ground (arith, ne) in rw other (inl (same, content))
  without-Present id m (x ∷ rows) ne (inr h) = elim (Bool-cases (x.id == id)) [
    | inl hit ↦ rw hit (without-Present id m rows ne h)
    | inr miss ↦ rw miss (inr (without-Present id m rows ne h))
  ]

  pub without_all-Present :
      (ids : List Uuid) (m : Message) (rows : List Message)
      → All (λ id. m.id ≢ id) ids
      → Present m rows
      → Present m (without_all ids rows)
  without_all-Present [] m rows ne h = h
  without_all-Present (id ∷ ids) m rows ne h =
      without_all-Present ids m (without id rows) ne.1 (without-Present id m rows ne.0 h)

  pub named_or_not : (id : Uuid) (ids : List Uuid) → In id ids ⊎ All (λ i. id ≢ i) ids
  named_or_not id [] = inr tt
  named_or_not id (i ∷ ids) = elim (Bool-cases (i == id)) [
    | inl hit ↦ inl (inl ((==_iff i id).0 hit))
    | inr miss ↦ elim (named_or_not id ids) [
      | inl later ↦ inl (inr later)
      | inr never ↦ inr (ground arith, never)
    ]
  ]

  -- What is said of every row by its ID and its content, retries and removals leave true.
  module _ (P : Uuid → Sent → Type 0) where
    abbrev pub AllRows : List Message → Type 0
    AllRows rows = All (λ x. P x.id (raw x)) rows

    pub retried-All : (id : Uuid) (rows : List Message) → AllRows rows → AllRows (retried id rows)
    retried-All id [] h = h
    retried-All id (x ∷ rows) h = elim (Bool-cases (x.id == id)) [
      | inl hit ↦ rw hit (h.0, retried-All id rows h.1)
      | inr miss ↦ rw miss (h.0, retried-All id rows h.1)
    ]

    without-All : (id : Uuid) (rows : List Message) → AllRows rows → AllRows (without id rows)
    without-All id [] h = h
    without-All id (x ∷ rows) h = elim (Bool-cases (x.id == id)) [
      | inl hit ↦ rw hit (without-All id rows h.1)
      | inr miss ↦ rw miss (h.0, without-All id rows h.1)
    ]

    pub without_all-All :
        (ids : List Uuid) (rows : List Message) → AllRows rows → AllRows (without_all ids rows)
    without_all-All [] rows h = h
    without_all-All (id ∷ ids) rows h =
        without_all-All ids (without id rows) (without-All id rows h)
