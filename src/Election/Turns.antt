-- ===== src/Election/Turns.antt =====
-- What one tick of an instance, or its shutdown, does to the instance and to the partition's row.
use cyptocurrency_exchange_b.Prelude.{
  ℕ, suc, ◌+◌, String, refl, inl, inr, Bool, true, false, not, Option, none, some, List, Bool-cases,
  ◌==◌, if◌then◌else◌,
}
use cyptocurrency_exchange_b.Decimal.{DecimalLib}
use cyptocurrency_exchange_b.Store.World.{
  no_rows, Result, ok, err, LeaderLock, World, Action, statement, guard,
}
use cyptocurrency_exchange_b.Store.World.After.{chain}
use cyptocurrency_exchange_b.Store.Locks.{
  upsert_lock, extend_rows, acquire_lock, extend_lease, release_lock, lease_duration,
}
use cyptocurrency_exchange_b.Election.{Elector, standby, renewed, elected, tick, stop}
use cyptocurrency_exchange_b.Election.Leaders.{
  SameLeader, NewLeader, Upserted, upsert_lock-Upserted, extend_rows-SameLeader,
  release_rows-SameLeader,
}

-- An instance that stays as it is or stands back, with the row's leader and token unchanged, or one
-- that takes over with the next token.
pub data Turn (p : String) (e : Elector) (rows : List LeaderLock)
    : Elector → List LeaderLock → Type 0 where
  stays : (rows' : List LeaderLock) → SameLeader p rows rows' → Turn p e rows e rows'
  steps_back : (rows' : List LeaderLock) → SameLeader p rows rows' → Turn p e rows (standby e) rows'
  takes_over :
      (won : ℕ) (rows' : List LeaderLock)
      → NewLeader p e.instance_id won rows rows'
      → Turn p e rows (record e { is_leader = true; fencing_token = won }) rows'

module _ ⦃lib : DecimalLib⦄ where
  abbrev pub TurnTo : Elector → List LeaderLock → Elector × World → Type 0
  TurnTo e rows (e', w') = Turn e.partition e rows e' w'.db.locks

  same : (p : String) (rows : List LeaderLock) → SameLeader p rows rows
  same p rows = record { token = refl; leader = refl }

  abbrev Acquired : String → String → List LeaderLock → Result (Option ℕ) × World → Type 0
  Acquired p i rows (ok none, w') = SameLeader p rows w'.db.locks
  Acquired p i rows (ok (some won), w') = NewLeader p i won rows w'.db.locks
  Acquired p i rows (err e, w') = SameLeader p rows w'.db.locks

  Upserted-Acquired :
      (p i : String) (w : World) (calls : ℕ) (r : Option ℕ × List LeaderLock)
      → Upserted p i w.db.locks r
      → Acquired p i w.db.locks
          (ok r.0, record w { db = record w.db { locks = r.1 }; calls = calls })
  Upserted-Acquired p i w calls (none, rows) h = h
  Upserted-Acquired p i w calls (some won, rows) h = h

  acquire_lock-Acquired : (p i : String) (w : World) → Acquired p i w.db.locks (acquire_lock p i w)
  unfolding acquire_lock
  acquire_lock-Acquired p i w = elim (Bool-cases (w.env.fails (suc (suc w.calls)))) [
    | inl down ↦ rw down (same p w.db.locks)
    | inr up ↦ rw up (
        Upserted-Acquired p i w (suc (suc (suc w.calls)))
          (upsert_lock p i (w.env.unix_milli (suc w.calls) + lease_duration)
            (w.env.unix_milli w.calls) w.db.locks)
          (upsert_lock-Upserted p i (w.env.unix_milli (suc w.calls) + lease_duration)
            (w.env.unix_milli w.calls) w.db.locks))
  ]

  elected-TurnTo :
      (e : Elector) (rows : List LeaderLock) (r : Result (Option ℕ) × World)
      → Acquired e.partition e.instance_id rows r
      → TurnTo e rows (elected e r)
  elected-TurnTo e rows (ok none, w') h = stays w'.db.locks h
  elected-TurnTo e rows (ok (some won), w') h = takes_over won w'.db.locks h
  elected-TurnTo e rows (err _, w') h = stays w'.db.locks h

  checked :
      (n : ℕ) (p : String) (rows : List LeaderLock) (w : World)
      → SameLeader p rows w.db.locks
      → SameLeader p rows (guard (not (n == 0)) no_rows w).1.db.locks
  checked n p rows w h = elim (Bool-cases (n == 0)) [ inl lost ↦ rw lost h | inr kept ↦ rw kept h ]

  extend_lease-SameLeader :
      (q i : String) (token : ℕ) (p : String) (w : World)
      → SameLeader p w.db.locks (extend_lease q i token w).1.db.locks
  unfolding extend_lease
  extend_lease-SameLeader q i token p w = after (extending w1) extended
    where
      expires : ℕ
      expires = w.env.unix_milli w.calls + lease_duration

      w1 : World
      w1 = record w { calls = suc w.calls }

      extending : Action ℕ
      extending = statement λ db.
          let (n, rows) = extend_rows q i token expires db.locks in
          (ok n, record db { locks = rows })

      extended : SameLeader p w.db.locks (extending w1).1.db.locks
      extended = elim (Bool-cases (w.env.fails (suc w.calls))) [
        | inl down ↦ rw down (same p w.db.locks)
        | inr up ↦ rw up (extend_rows-SameLeader q i token expires p w.db.locks)
      ]

      after :
          (r : Result ℕ × World)
          → SameLeader p w.db.locks r.1.db.locks
          → SameLeader p w.db.locks (chain r (λ n. guard (not (n == 0)) no_rows)).1.db.locks
      after (ok n, w2) h = checked n p w.db.locks w2 h
      after (err _, w2) h = h

  release_lock-SameLeader :
      (q i p : String) (w : World) → SameLeader p w.db.locks (release_lock q i w).1.db.locks
  unfolding release_lock
  release_lock-SameLeader q i p w = elim (Bool-cases (w.env.fails w.calls)) [
    | inl down ↦ rw down (same p w.db.locks)
    | inr up ↦ rw up (release_rows-SameLeader q i p w.db.locks)
  ]

  renewed-TurnTo :
      (e : Elector) (rows : List LeaderLock) (r : Result (Unit {0}) × World)
      → SameLeader e.partition rows r.1.db.locks
      → TurnTo e rows (renewed e r)
  renewed-TurnTo e rows (ok _, w') h = stays w'.db.locks h
  renewed-TurnTo e rows (err _, w') h = steps_back w'.db.locks h

  -- A tick leaves the row's leader and token as they are, with the instance as it was or standing
  -- back, or it makes the instance the leader with a token that is one above the row's.
  pub tick-TurnTo : (e : Elector) (w : World) → TurnTo e w.db.locks (tick e w)
  unfolding tick
  tick-TurnTo e w = chosen e.is_leader
    where
      chosen :
          (b : Bool)
          → TurnTo e w.db.locks (
              if b
              then renewed e (extend_lease e.partition e.instance_id e.fencing_token w)
              else elected e (acquire_lock e.partition e.instance_id w))
      chosen true =
          renewed-TurnTo e w.db.locks (extend_lease e.partition e.instance_id e.fencing_token w)
            (extend_lease-SameLeader e.partition e.instance_id e.fencing_token e.partition w)
      chosen false =
          elected-TurnTo e w.db.locks (acquire_lock e.partition e.instance_id w)
            (acquire_lock-Acquired e.partition e.instance_id w)

  pub stop-TurnTo : (e : Elector) (w : World) → TurnTo e w.db.locks (stop e w)
  unfolding stop
  stop-TurnTo e w = chosen e.is_leader
    where
      chosen :
          (b : Bool)
          → TurnTo e w.db.locks
              (if b then (standby e, (release_lock e.partition e.instance_id w).1) else (e, w))
      chosen true =
          steps_back (release_lock e.partition e.instance_id w).1.db.locks
            (release_lock-SameLeader e.partition e.instance_id e.partition w)
      chosen false = stays w.db.locks (same e.partition w.db.locks)
