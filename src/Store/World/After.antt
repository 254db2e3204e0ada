-- ===== src/Store/World/After.antt =====
-- What holds after an action that succeeds, and what a transaction leaves when it fails.
use cyptocurrency_exchange_b.Prelude.{suc, ◌≡◌, refl, ap, sym, subst, inl, inr, false, Bool-cases}
use cyptocurrency_exchange_b.Decimal.{DecimalLib}
use cyptocurrency_exchange_b.Store.World.{
  Error, Result, ok, err, Db, World, Action, statement, settle, exec_tx, ◌>>=◌,
}

module _ ⦃lib : DecimalLib⦄ where
  -- `Q` holds of the result and the state, if the action succeeded.
  abbrev pub After : {A : Type 0} → Result A × World → (A → World → Type 0) → Type 0
  After (ok a, w) Q = Q a w
  After (err e, w) Q = Unit {0}

  pub After-bind :
      {A B : Type 0} (m : Action A) (f : A → Action B) (w : World) (Q : A → World → Type 0)
      (R : B → World → Type 0)
      → After (m w) Q
      → ((a : A) (w' : World) → Q a w' → After (f a w') R)
      → After ((m >>= f) w) R
  After-bind {A} {B} m f w Q R h k = go (m w) h
    where
      go :
          (r : Result A × World)
          → After r Q
          → After (let (x, w') = r in elim x [ ok a ↦ f a w' | err e ↦ (err e, w') ]) R
      go (ok a, w') h = k a w' h
      go (err e, w') h = tt

  pub After-weaken :
      {A : Type 0} (r : Result A × World) (Q R : A → World → Type 0)
      → After r Q
      → ((a : A) (w : World) → Q a w → R a w)
      → After r R
  After-weaken (ok a, w) Q R h k = k a w h
  After-weaken (err e, w) Q R h k = tt

  pub After-both :
      {A : Type 0} (r : Result A × World) (P Q R : A → World → Type 0)
      → After r P
      → After r Q
      → ((a : A) (w : World) → P a w → Q a w → R a w)
      → After r R
  After-both (ok a, w) P Q R hp hq k = k a w hp hq
  After-both (err e, w) P Q R hp hq k = tt

  pub After-all :
      {A I : Type 0} (r : Result A × World) (Q : I → A → World → Type 0)
      → ((i : I) → After r (Q i))
      → After r (λ a w. (i : I) → Q i a w)
  After-all (ok a, w) Q h = h
  After-all (err e, w) Q h = tt

  -- A statement that went through has run.
  pub After-statement :
      {A : Type 0} (f : Db → Result A × Db) (w : World) (Q : A → World → Type 0)
      → After ((f w.db).0, record w { db = (f w.db).1; calls = suc w.calls }) Q
      → After (statement f w) Q
  After-statement f w Q h = elim (Bool-cases (w.env.fails w.calls)) [
    | inl down ↦ rw down tt
    | inr up ↦ rw up h
  ]

  -- A transaction that fails leaves the database as it was.
  abbrev pub RolledBack : {A : Type 0} → Db → Result A × World → Type 0
  RolledBack before (ok a, w) = Unit {0}
  RolledBack before (err e, w) = w.db ≡ before

  settle-RolledBack :
      {A : Type 0} (before : Db) (r : Result A × World) → RolledBack before (settle r before)
  settle-RolledBack before (ok a, w) = elim (Bool-cases (w.env.fails w.calls)) [
    | inl down ↦ rw down refl
    | inr up ↦ rw up tt
  ]
  settle-RolledBack before (err e, w) = refl

  pub exec_tx-RolledBack :
      {A : Type 0} (body : Action A) (w : World) → RolledBack w.db (exec_tx body w)
  exec_tx-RolledBack body w = elim (Bool-cases (w.env.fails w.calls)) [
    | inl down ↦ rw down refl
    | inr up ↦ rw up (settle-RolledBack w.db (body (record w { calls = suc w.calls })))
  ]

  After-settle :
      {A : Type 0} (before : Db) (r : Result A × World) (Q : A → Db → Type 0)
      → After r (λ a w. Q a w.db)
      → After (settle r before) (λ a w. Q a w.db)
  After-settle before (ok a, w) Q h = elim (Bool-cases (w.env.fails w.calls)) [
    | inl down ↦ rw down tt
    | inr up ↦ rw up h
  ]
  After-settle before (err e, w) Q h = tt

  -- A transaction that succeeds leaves what its body left.
  pub After-exec_tx :
      {A : Type 0} (body : Action A) (w : World) (Q : A → Db → Type 0)
      → After (body (record w { calls = suc w.calls })) (λ a w'. Q a w'.db)
      → After (exec_tx body w) (λ a w'. Q a w'.db)
  After-exec_tx body w Q h = elim (Bool-cases (w.env.fails w.calls)) [
    | inl down ↦ rw down tt
    | inr up ↦ rw up (After-settle w.db (body (record w { calls = suc w.calls })) Q h)
  ]

  abbrev pub chain : {A B : Type 0} → Result A × World → (A → Action B) → Result B × World
  chain r f = let (x, w1) = r in elim x [ ok a ↦ f a w1 | err e1 ↦ (err e1, w1) ]

  pub bind_assoc :
      {A B C : Type 0} (m : Action A) (f : A → Action B) (g : B → Action C) (w : World)
      → ((m >>= f) >>= g) w ≡ (m >>= λ a. f a >>= g) w
  bind_assoc {A} {B} {C} m f g w = go (m w)
    where
      go : (r : Result A × World) → chain (chain r f) g ≡ chain r (λ a. f a >>= g)
      go (ok a, w') = refl
      go (err e, w') = refl

  -- An error ends a chain of actions, and a transaction.
  pub bind-err :
      {A B : Type 0} (m : Action A) (f : A → Action B) (w w' : World) (e : Error)
      → m w ≡ (err e, w')
      → (m >>= f) w ≡ (err e, w')
  bind-err m f w w' e h = ap (λ r. chain r f) h

  pub exec_tx-err :
      {A : Type 0} (body : Action A) (w w' : World) (e : Error)
      → w.env.fails w.calls ≡ false
      → body (record w { calls = suc w.calls }) ≡ (err e, w')
      → exec_tx body w ≡ (err e, record w' { db = w.db })
  exec_tx-err body w w' e begins h = rw begins (ap (λ r. settle r w.db) h)

  -- A continuation that keeps a property of the database where it starts keeps it after a read.
  pub bind-reads :
      {A B : Type 0} (P : Db → Db → Type 0) (m : Action A) (f : A → Action B) (w : World)
      → (m w).1.db ≡ w.db
      → P w.db w.db
      → ((a : A) (w' : World) → w'.db ≡ w.db → P w'.db (f a w').1.db)
      → P w.db ((m >>= f) w).1.db
  bind-reads {A} {B} P m f w same start k = go (m w) same
    where
      go : (r : Result A × World) → r.1.db ≡ w.db → P w.db (chain r f).1.db
      go (ok a, w1) same = subst (λ db. P db (f a w1).1.db) same (k a w1 same)
      go (err e, w1) same = subst (P w.db) (sym same) start
