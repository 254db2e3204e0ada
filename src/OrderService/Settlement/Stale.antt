-- ===== src/OrderService/Settlement/Stale.antt =====
-- Settlement events from a superseded leader.
use cyptocurrency_exchange_b.Prelude.{
  ℕ, suc, ◌≡◌, refl, ap, true, false, some, [], ◌==◌, ltb, arith,
}
use cyptocurrency_exchange_b.Decimal.{DecimalLib}
use cyptocurrency_exchange_b.Domain.Events.{SettlementRequestedEvent}
use cyptocurrency_exchange_b.Store.World.{stale_settlement_event, ok, err, LeaderLock, World, guard}
use cyptocurrency_exchange_b.Store.World.After.{bind-err, exec_tx-err}
use cyptocurrency_exchange_b.Store.Locks.{find_lock, token_is_valid, validate_fencing_token_tx}
use cyptocurrency_exchange_b.OrderService.Settlement.{
  check_fencing, prepare_fenced, prepare, write_settlement, settlement_body, absorb,
  execute_settlement_tx,
}

module _ ⦃lib : DecimalLib⦄ where
  invalid-token :
      (token : ℕ) (l : LeaderLock) (w : World)
      → find_lock "matching-engine:global" w.db.locks ≡ some l
      → ltb 0 token ≡ true
      → ltb token l.fencing_token ≡ true
      → w.env.fails w.calls ≡ false
      → validate_fencing_token_tx "matching-engine:global" token w
        ≡ (ok false, record w { calls = suc w.calls })
  unfolding validate_fencing_token_tx token_is_valid
  invalid-token token l w leader fenced stale answers =
      let above : (token == 0) ≡ false = ground arith in rw (above, answers, leader, stale) refl

  check_fencing-stale :
      (token : ℕ) (l : LeaderLock) (w : World)
      → find_lock "matching-engine:global" w.db.locks ≡ some l
      → ltb 0 token ≡ true
      → ltb token l.fencing_token ≡ true
      → w.env.fails w.calls ≡ false
      → check_fencing token w ≡ (err stale_settlement_event, record w { calls = suc w.calls })
  unfolding check_fencing
  check_fencing-stale token l w leader fenced stale answers = rw fenced (
      ap
        (λ r.
          let (x, w1) = r in
          elim x [ ok valid ↦ guard valid stale_settlement_event w1 | err e1 ↦ (err e1, w1) ])
        refused)
    where
      refused :
          validate_fencing_token_tx "matching-engine:global" token w
          ≡ (ok false, record w { calls = suc w.calls })
      refused = invalid-token token l w leader fenced stale answers

  -- A settlement event whose fencing token is above zero and below that of the stored leader changes
  -- nothing, publishes nothing, and ends without an error, where the begin of the transaction and the
  -- query for the leader do not fail.
  pub execute_settlement_tx-stale :
      (event : SettlementRequestedEvent) (l : LeaderLock) (w : World)
      → find_lock "matching-engine:global" w.db.locks ≡ some l
      → ltb 0 event.fencing_token ≡ true
      → ltb event.fencing_token l.fencing_token ≡ true
      → w.env.fails w.calls ≡ false
      → w.env.fails (suc w.calls) ≡ false
      → execute_settlement_tx event w ≡ (ok [], record w { calls = suc (suc w.calls) })
  unfolding execute_settlement_tx settlement_body prepare
  execute_settlement_tx-stale event l w leader fenced stale begins answers = ap absorb (
      exec_tx-err (settlement_body event) w w2 stale_settlement_event begins (
        bind-err (prepare event) (write_settlement event) w1 w2 stale_settlement_event (
          bind-err (check_fencing event.fencing_token) (λ _. prepare_fenced event) w1 w2
            stale_settlement_event
            (check_fencing-stale event.fencing_token l w1 leader fenced stale answers))))
    where
      w1 : World
      w1 = record w { calls = suc w.calls }

      w2 : World
      w2 = record w { calls = suc (suc w.calls) }
