-- ===== src/Store/Trades.antt =====
-- internal/repository/trade_repository.go over the `trades` table. A candle's open and close are
-- those of the first row with the least and the greatest time, which SQL leaves open among equals.
pub mod Candles
use Prim.Native.Nat.{◌/◌}
use cyptocurrency_exchange_b.Prelude.{
  ℕ, ◌*◌, String, Bool, false, ◌||◌, List, [], ◌∷◌, ◌++◌, map, take, ltb, str_eq, ◌==◌,
  if◌then◌else◌,
}
use cyptocurrency_exchange_b.Decimal.{DecimalLib, Decimal, add, greater_than, less_than}
use cyptocurrency_exchange_b.Engine.Types.{Uuid, Trade}
use cyptocurrency_exchange_b.Engine.OrderBook.{slice_stable}
use cyptocurrency_exchange_b.Domain.Models.{KLine}
use cyptocurrency_exchange_b.Store.World.{db_error, ok, err, Action, statement}

unfoldable pub parse_interval_ms : String → ℕ
parse_interval_ms interval =
    if str_eq interval "1m"
    then 60 * 1000
    else if str_eq interval "3m"
    then 3 * 60 * 1000
    else if str_eq interval "5m"
    then 5 * 60 * 1000
    else if str_eq interval "15m"
    then 15 * 60 * 1000
    else if str_eq interval "30m"
    then 30 * 60 * 1000
    else if str_eq interval "1h"
    then 60 * 60 * 1000
    else if str_eq interval "2h"
    then 2 * 60 * 60 * 1000
    else if str_eq interval "4h"
    then 4 * 60 * 60 * 1000
    else if str_eq interval "6h"
    then 6 * 60 * 60 * 1000
    else if str_eq interval "12h"
    then 12 * 60 * 60 * 1000
    else if str_eq interval "1d"
    then 24 * 60 * 60 * 1000
    else if str_eq interval "1w"
    then 7 * 24 * 60 * 60 * 1000
    else 60 * 1000

module _ ⦃lib : DecimalLib⦄ where
  abbrev pub has_trade : Uuid → List Trade → Bool
  has_trade id [] = false
  has_trade id (t ∷ rows) = t.id == id || has_trade id rows

  -- the primary key refuses a second row with the ID
  unfoldable pub create_trade : Trade → Action (Unit {0})
  create_trade trade = statement λ db.
      if has_trade trade.id db.trades
      then (err db_error, db)
      else (ok tt, record db { trades = db.trades ++ trade ∷ [] })

  unfoldable pub trade_exists_by_id : Uuid → Action Bool
  trade_exists_by_id id = statement λ db. (ok (has_trade id db.trades), db)

  abbrev pub of_symbol : String → List Trade → List Trade
  of_symbol symbol [] = []
  of_symbol symbol (t ∷ rows) =
      let rest = of_symbol symbol rows in if str_eq t.symbol symbol then t ∷ rest else rest

  -- The rows of one bucket: its time, a row, and the others.
  pub record Bucket : Type 0 where
    pub time : ℕ
    pub one : Trade
    pub others : List Trade

  abbrev pub bucket_of : ℕ → Trade → ℕ
  bucket_of interval t = (t.created_at / interval) * interval

  -- `GROUP BY bucket ORDER BY bucket DESC`, row by row
  unfoldable pub put_row : ℕ → Trade → List Bucket → List Bucket
  put_row time t [] = record { time = time; one = t; others = [] } ∷ []
  put_row time t (b ∷ buckets) =
      let rest = put_row time t buckets in
      if time == b.time
      then record b { others = b.others ++ t ∷ [] } ∷ buckets
      else if ltb b.time time
      then record { time = time; one = t; others = [] } ∷ b ∷ buckets
      else b ∷ rest

  unfoldable pub group_rows : ℕ → List Trade → List Bucket → List Bucket
  unfolding put_row
  group_rows interval [] buckets = buckets
  group_rows interval (t ∷ rows) buckets =
      group_rows interval rows (put_row (bucket_of interval t) t buckets)

  -- The first row that no other row is better than.
  unfoldable pub pick : (Trade → Trade → Bool) → Trade → List Trade → Trade
  pick better t [] = t
  pick better t (x ∷ rows) = pick better (if better x t then x else t) rows

  unfoldable pub volume_of : Decimal → List Trade → Decimal
  volume_of sum [] = sum
  volume_of sum (t ∷ rows) = volume_of (add sum t.quantity) rows

  unfoldable pub kline : Bucket → KLine
  unfolding pick volume_of
  kline b = record {
    timestamp = b.time;
    open_price = (pick (λ x y. ltb x.created_at y.created_at) b.one b.others).price;
    high = (pick (λ x y. greater_than x.price y.price) b.one b.others).price;
    low = (pick (λ x y. less_than x.price y.price) b.one b.others).price;
    close = (pick (λ x y. ltb y.created_at x.created_at) b.one b.others).price;
    volume = volume_of b.one.quantity b.others;
  }

  unfoldable pub get_klines : String → String → ℕ → Action (List KLine)
  unfolding parse_interval_ms group_rows kline
  get_klines symbol interval limit = statement λ db. (
    ok (
        take limit
          (map kline (group_rows (parse_interval_ms interval) (of_symbol symbol db.trades) []))),
    db,
  )

  -- newest first
  unfoldable pub get_recent_trades : String → ℕ → Action (List Trade)
  get_recent_trades symbol limit = statement λ db. (
    ok (
        take limit
          (slice_stable (λ a b. ltb b.created_at a.created_at) (of_symbol symbol db.trades))),
    db,
  )

  unfoldable pub delete_all_trades : Action (Unit {0})
  delete_all_trades = statement λ db. (ok tt, record db { trades = [] })
