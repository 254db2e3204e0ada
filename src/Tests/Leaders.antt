-- ===== src/Tests/Leaders.antt =====
-- Two instances that compete for the partition.
use cyptocurrency_exchange_b.Prelude.{refl, [], ◌∷◌, All}
use cyptocurrency_exchange_b.Election.{Elector, new_elector, tick}
use cyptocurrency_exchange_b.Election.Reachable.{
  Reachable, start, ticks, IsKnown, Reachable-IsKnown,
}
use cyptocurrency_exchange_b.Tests.Data.{whole_numbers, db, world}

abbrev a : Elector
a = new_elector "matching-engine:global" "a"

abbrev b : Elector
b = new_elector "matching-engine:global" "b"

both : Reachable "matching-engine:global" ((tick a world).0 ∷ b ∷ []) (tick a world).1.db.locks
both = ticks [] (b ∷ []) a world (start (a ∷ b ∷ []) db.locks ((refl, refl), ((refl, refl), tt)))

turns :
    Reachable "matching-engine:global"
      ((tick a world).0 ∷ (tick b (tick a world).1).0 ∷ [])
      (tick b (tick a world).1).1.db.locks
turns = ticks ((tick a world).0 ∷ []) [] b (tick a world).1 both

Reachable-IsKnown_example :
    All
      (IsKnown "matching-engine:global" (tick b (tick a world).1).1.db.locks)
      ((tick a world).0 ∷ (tick b (tick a world).1).0 ∷ [])
Reachable-IsKnown_example = Reachable-IsKnown "matching-engine:global" turns
