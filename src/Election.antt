-- ===== src/Election.antt =====
-- internal/infrastructure/election/elector.go: an instance of the matching engine competes for the
-- partition, on each tick of its timer. The callbacks are not part of the state.
pub mod Leaders
pub mod Turns
pub mod Reachable
use cyptocurrency_exchange_b.Prelude.{
  ℕ, String, Bool, true, false, Option, none, some, if◌then◌else◌,
}
use cyptocurrency_exchange_b.Decimal.{DecimalLib}
use cyptocurrency_exchange_b.Store.World.{Error, Result, ok, err, World}
use cyptocurrency_exchange_b.Store.Locks.{acquire_lock, extend_lease, release_lock}

pub record Elector : Type 0 where
  pub partition : String
  pub instance_id : String
  pub is_leader : Bool
  pub fencing_token : ℕ

abbrev pub new_elector : String → String → Elector
new_elector partition instance_id = record {
  partition = partition;
  instance_id = instance_id;
  is_leader = false;
  fencing_token = 0;
}

abbrev pub standby : Elector → Elector
standby e = record e { is_leader = false; fencing_token = 0 }

module _ ⦃lib : DecimalLib⦄ where
  abbrev pub renewed : Elector → Result (Unit {0}) × World → Elector × World
  renewed e (ok _, w) = (e, w)
  renewed e (err _, w) = (standby e, w)

  abbrev pub elected : Elector → Result (Option ℕ) × World → Elector × World
  elected e (err _, w) = (e, w)
  elected e (ok none, w) = (e, w)
  elected e (ok (some token), w) = (record e { is_leader = true; fencing_token = token }, w)

  unfoldable pub tick : Elector → World → Elector × World
  tick e w =
      if e.is_leader
      then renewed e (extend_lease e.partition e.instance_id e.fencing_token w)
      else elected e (acquire_lock e.partition e.instance_id w)

  -- The end of `Run`, when its context is done: an error of the release is only logged.
  unfoldable pub stop : Elector → World → Elector × World
  stop e w =
      if e.is_leader then (standby e, (release_lock e.partition e.instance_id w).1) else (e, w)
