-- ===== src/Election/Reachable.antt =====
-- Any number of instances that compete for one partition, in any interleaving of their ticks and
-- shutdowns, against a clock and a database that answer as they like.
use cyptocurrency_exchange_b.Prelude.{
  ℕ, String, ◌≡◌, ◌⊎◌, inl, inr, sym, subst, ◌∙◌, true, false, Option, none, some, List, [], ◌∷◌,
  ◌++◌, All, Bool-cases, ltb, arith,
}
use cyptocurrency_exchange_b.Decimal.{DecimalLib}
use cyptocurrency_exchange_b.Store.World.{LeaderLock, World}
use cyptocurrency_exchange_b.Store.Locks.{find_lock, token_is_valid}
use cyptocurrency_exchange_b.Election.{Elector, standby, tick, stop}
use cyptocurrency_exchange_b.Election.Leaders.{token_of, leader_of, SameLeader, NewLeader}
use cyptocurrency_exchange_b.Election.Turns.{
  Turn, stays, steps_back, takes_over, TurnTo, tick-TurnTo, stop-TurnTo,
}

module _ ⦃lib : DecimalLib⦄ (p : String) where
  -- The instances and the rows that steps from a start without leaders lead to.
  pub data Reachable : List Elector → List LeaderLock → Type 0 where
    start :
        (es : List Elector) (rows : List LeaderLock)
        → All (λ e. (e.partition ≡ p) × (e.is_leader ≡ false)) es
        → Reachable es rows
    ticks :
        (xs ys : List Elector) (e : Elector) (w : World)
        → Reachable (xs ++ e ∷ ys) w.db.locks
        → Reachable (xs ++ (tick e w).0 ∷ ys) (tick e w).1.db.locks
    stops :
        (xs ys : List Elector) (e : Elector) (w : World)
        → Reachable (xs ++ e ∷ ys) w.db.locks
        → Reachable (xs ++ (stop e w).0 ∷ ys) (stop e w).1.db.locks

-- An instance that takes itself for the leader has a token that is not above the row's, and if it is
-- the row's, then the row names the instance.
pub record Follows (p : String) (rows : List LeaderLock) (e : Elector) : Type 0 where
  pub partition : e.partition ≡ p
  pub bounded : e.is_leader ≡ true → ltb (token_of (find_lock p rows)) e.fencing_token ≡ false
  pub named :
      e.is_leader ≡ true
      → token_of (find_lock p rows) ≡ e.fencing_token
      → leader_of (find_lock p rows) ≡ e.instance_id

same-Follows :
    (p : String) (rows rows' : List LeaderLock) (e : Elector)
    → SameLeader p rows rows'
    → Follows p rows e
    → Follows p rows' e
same-Follows p rows rows' e s f = record {
  partition = f.partition;
  bounded = λ leads. subst (λ t. ltb t e.fencing_token ≡ false) (sym s.token) (f.bounded leads);
  named = λ leads mine. s.leader ∙ f.named leads (sym s.token ∙ mine);
}

new-Follows :
    (p i : String) (won : ℕ) (rows rows' : List LeaderLock) (e : Elector)
    → NewLeader p i won rows rows'
    → Follows p rows e
    → Follows p rows' e
new-Follows p i won rows rows' e n f = record {
  partition = f.partition;
  bounded = λ leads. ground (arith, n.token, n.next, f.bounded leads);
  named = λ leads mine. ground (arith, n.token, n.next, f.bounded leads, mine);
}

standby-Follows :
    (p : String) (rows : List LeaderLock) (e : Elector)
    → e.partition ≡ p
    → Follows p rows (standby e)
standby-Follows p rows e same = record {
  partition = same;
  bounded = λ leads. ground (arith, leads);
  named = λ leads mine. ground (arith, leads);
}

others-Follows :
    (p : String) (e e' : Elector) (rows rows' : List LeaderLock)
    → Turn p e rows e' rows'
    → (f : Elector) → Follows p rows f
    → Follows p rows' f
others-Follows p e _ rows _ (stays rows' s) f h = same-Follows p rows rows' f s h
others-Follows p e _ rows _ (steps_back rows' s) f h = same-Follows p rows rows' f s h
others-Follows p e _ rows _ (takes_over won rows' n) f h =
    new-Follows p e.instance_id won rows rows' f n h

own-Follows :
    (p : String) (e e' : Elector) (rows rows' : List LeaderLock)
    → Turn p e rows e' rows'
    → Follows p rows e
    → Follows p rows' e'
own-Follows p e _ rows _ (stays rows' s) h = same-Follows p rows rows' e s h
own-Follows p e _ rows _ (steps_back rows' s) h = standby-Follows p rows' e h.partition
own-Follows p e _ rows _ (takes_over won rows' n) h = record {
  partition = h.partition;
  bounded = λ _. ground (arith, n.token);
  named = λ _ _. n.leader;
}

Turn-All :
    (p : String) (xs ys : List Elector) (e e' : Elector) (rows rows' : List LeaderLock)
    → Turn p e rows e' rows'
    → All (Follows p rows) (xs ++ e ∷ ys)
    → All (Follows p rows') (xs ++ e' ∷ ys)
Turn-All p [] ys e e' rows rows' t h = (own-Follows p e e' rows rows' t h.0, each ys h.1)
  where
    each : (ys : List Elector) → All (Follows p rows) ys → All (Follows p rows') ys
    each [] h = tt
    each (y ∷ ys) h = (others-Follows p e e' rows rows' t y h.0, each ys h.1)
Turn-All p (x ∷ xs) ys e e' rows rows' t h =
    (others-Follows p e e' rows rows' t x h.0, Turn-All p xs ys e e' rows rows' t h.1)

start-Follows :
    (p : String) (rows : List LeaderLock) (es : List Elector)
    → All (λ e. (e.partition ≡ p) × (e.is_leader ≡ false)) es
    → All (Follows p rows) es
start-Follows p rows [] h = tt
start-Follows p rows (e ∷ es) h = (
  record {
    partition = h.0.0;
    bounded = λ leads. ground (arith, leads, h.0.1);
    named = λ leads mine. ground (arith, leads, h.0.1);
  },
  start-Follows p rows es h.1,
)

-- The instance leads by the partition's row, or its token is refused, if it takes itself for leader.
abbrev pub IsKnown : String → List LeaderLock → Elector → Type 0
IsKnown p rows e =
    (e.is_leader ≡ false)
    ⊎ ((leader_of (find_lock p rows) ≡ e.instance_id)
        ⊎ (token_is_valid (find_lock p rows) e.fencing_token ≡ false))

module _ ⦃lib : DecimalLib⦄ (p : String) where
  at_split :
      (rows : List LeaderLock) (xs ys : List Elector) (e : Elector)
      → All (Follows p rows) (xs ++ e ∷ ys)
      → Follows p rows e
  at_split rows [] ys e h = h.0
  at_split rows (x ∷ xs) ys e h = at_split rows xs ys e h.1

  at_partition :
      (e : Elector) (rows : List LeaderLock) (r : Elector × World)
      → Follows p rows e
      → TurnTo e rows r
      → Turn p e rows r.0 r.1.db.locks
  at_partition e rows r f t = subst (λ q. Turn q e rows r.0 r.1.db.locks) f.partition t

  Reachable-Follows :
      {es : List Elector} {rows : List LeaderLock} → Reachable p es rows → All (Follows p rows) es
  Reachable-Follows (start es rows h) = start-Follows p rows es h
  Reachable-Follows (ticks xs ys e w before) =
      let h = Reachable-Follows before in
      Turn-All p xs ys e (tick e w).0 w.db.locks (tick e w).1.db.locks
        (at_partition e w.db.locks (tick e w) (at_split w.db.locks xs ys e h) (tick-TurnTo e w)) h
  Reachable-Follows (stops xs ys e w before) =
      let h = Reachable-Follows before in
      Turn-All p xs ys e (stop e w).0 w.db.locks (stop e w).1.db.locks
        (at_partition e w.db.locks (stop e w) (at_split w.db.locks xs ys e h) (stop-TurnTo e w)) h

  known :
      (row : Option LeaderLock) (e : Elector)
      → (e.is_leader ≡ true → ltb (token_of row) e.fencing_token ≡ false)
      → (e.is_leader ≡ true → token_of row ≡ e.fencing_token → leader_of row ≡ e.instance_id)
      → (e.is_leader ≡ false)
        ⊎ ((leader_of row ≡ e.instance_id) ⊎ (token_is_valid row e.fencing_token ≡ false))
  unfolding token_is_valid
  known none e bounded named = elim (Bool-cases e.is_leader) [
    | inl leads ↦ inr (inl (named leads (ground (arith, bounded leads))))
    | inr waits ↦ inl waits
  ]
  known (some l) e bounded named = elim (Bool-cases e.is_leader) [
    | inl leads ↦ elim (Bool-cases (ltb e.fencing_token l.fencing_token)) [
      | inl old ↦ inr (inr (ground (arith, old)))
      | inr current ↦ inr (inl (named leads (ground (arith, current, bounded leads))))
    ]
    | inr waits ↦ inl waits
  ]

  All-IsKnown :
      (rows : List LeaderLock) (es : List Elector)
      → All (Follows p rows) es
      → All (IsKnown p rows) es
  All-IsKnown rows [] h = tt
  All-IsKnown rows (e ∷ es) h =
      (known (find_lock p rows) e h.0.bounded h.0.named, All-IsKnown rows es h.1)

  -- After any ticks and shutdowns of any instances of a partition, in any order, with whatever clock
  -- readings and database failures, from a start where none of them is leader, each instance that
  -- takes itself for the leader is the one that the partition's row names, or its fencing token is
  -- below the row's, so that its events are refused.
  pub Reachable-IsKnown :
      {es : List Elector} {rows : List LeaderLock} → Reachable p es rows → All (IsKnown p rows) es
  Reachable-IsKnown {es} {rows} r = All-IsKnown rows es (Reachable-Follows r)
