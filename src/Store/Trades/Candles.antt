-- ===== src/Store/Trades/Candles.antt =====
-- What the candles of `GetKLines` are: one for each bucket, newest first, each within its prices.
use Prim.Native.Nat.{◌/◌}
use cyptocurrency_exchange_b.Prelude.{
  ℕ, zero, suc, ◌*◌, ◌≤◌, ◌<◌, ◌≡◌, refl, inl, inr, Bool, true, false, List, [], ◌∷◌, ◌++◌, map,
  take, length, All, Bool-cases, ltb, ltb→lt, ◌==◌, if◌then◌else◌, arith,
}
use cyptocurrency_exchange_b.Prelude.Int.{◌≤ℤ◌}
use cyptocurrency_exchange_b.Prelude.Order.{Sorted, All-map}
use cyptocurrency_exchange_b.Decimal.{DecimalLib, value, greater_than, less_than}
use cyptocurrency_exchange_b.Decimal.Laws.{
  greater_than→lt, greater_than→ge, less_than→lt, less_than→ge,
}
use cyptocurrency_exchange_b.Engine.Types.{Trade}
use cyptocurrency_exchange_b.Domain.Models.{KLine}
use cyptocurrency_exchange_b.Store.Trades.{Bucket, bucket_of, put_row, group_rows, pick, kline}

module _ ⦃lib : DecimalLib⦄ where
  -- A property of all candidates holds of the one that is picked.
  pick-All :
      (P : Trade → Type 0) (better : Trade → Trade → Bool) (t : Trade) (rows : List Trade)
      → P t
      → All P rows
      → P (pick better t rows)
  unfolding pick
  pick-All P better t [] p h = p
  pick-All P better t (x ∷ rows) p h = elim (Bool-cases (better x t)) [
    | inl yes_better ↦ rw (yes_better, pick) (pick-All P better x rows h.0 h.1)
    | inr no_better ↦ rw (no_better, pick) (pick-All P better t rows p h.1)
  ]

  -- Every candidate is at most as good as the one that is picked.
  module _ (better : Trade → Trade → Bool) (R : Trade → Trade → Type 0)
      (R_refl : (t : Trade) → R t t) (R_trans : (x y z : Trade) → R x y → R y z → R x z)
      (better→R : (x t : Trade) → better x t ≡ true → R t x)
      (not_better→R : (x t : Trade) → better x t ≡ false → R x t) where
    pick-best :
        (t : Trade) (rows : List Trade)
        → R t (pick better t rows) × All (λ x. R x (pick better t rows)) rows
    unfolding pick
    pick-best t [] = (R_refl t, tt)
    pick-best t (x ∷ rows) = chosen (better x t) refl (pick-best x rows) (pick-best t rows)
      where
        chosen :
            (b : Bool)
            → better x t ≡ b
            → R x (pick better x rows) × All (λ y. R y (pick better x rows)) rows
            → R t (pick better t rows) × All (λ y. R y (pick better t rows)) rows
            → let w = pick better (if b then x else t) rows in
              R t w × (R x w × All (λ y. R y w) rows)
        chosen true e (here, rest) _ =
            (R_trans t x (pick better x rows) (better→R x t e) here, (here, rest))
        chosen false e _ (here, rest) =
            (here, (R_trans x t (pick better t rows) (not_better→R x t e) here, rest))

  high_bound :
      (t : Trade) (rows : List Trade)
      → let h = pick (λ x y. greater_than x.price y.price) t rows in
        (value t.price ≤ℤ value h.price) × All (λ x. value x.price ≤ℤ value h.price) rows
  high_bound =
      pick-best (λ x y. greater_than x.price y.price) (λ x y. value x.price ≤ℤ value y.price)
        (λ t. omega arith) (λ x y z h k. omega arith)
        (λ x t e. let lt = greater_than→lt x.price t.price e in omega arith)
        (λ x t e. greater_than→ge x.price t.price e)

  low_bound :
      (t : Trade) (rows : List Trade)
      → let l = pick (λ x y. less_than x.price y.price) t rows in
        (value l.price ≤ℤ value t.price) × All (λ x. value l.price ≤ℤ value x.price) rows
  low_bound =
      pick-best (λ x y. less_than x.price y.price) (λ x y. value y.price ≤ℤ value x.price)
        (λ t. omega arith) (λ x y z h k. omega arith)
        (λ x t e. let lt = less_than→lt x.price t.price e in omega arith)
        (λ x t e. less_than→ge x.price t.price e)

  -- Open and close lie between low and high.
  pub record IsCandle (k : KLine) : Type 0 where
    pub low_open : value k.low ≤ℤ value k.open_price
    pub open_high : value k.open_price ≤ℤ value k.high
    pub low_close : value k.low ≤ℤ value k.close
    pub close_high : value k.close ≤ℤ value k.high

  pub kline-IsCandle : (b : Bucket) → IsCandle (kline b)
  unfolding kline
  kline-IsCandle b =
      let (high_one, high_others) = high_bound b.one b.others in
      let (low_one, low_others) = low_bound b.one b.others in
      record {
        low_open =
            pick-All (λ t. value (kline b).low ≤ℤ value t.price) _ b.one b.others low_one
              low_others;
        open_high =
            pick-All (λ t. value t.price ≤ℤ value (kline b).high) _ b.one b.others high_one
              high_others;
        low_close =
            pick-All (λ t. value (kline b).low ≤ℤ value t.price) _ b.one b.others low_one
              low_others;
        close_high =
            pick-All (λ t. value t.price ≤ℤ value (kline b).high) _ b.one b.others high_one
              high_others;
      }

  -- Newest first, each time once.
  abbrev Newer : Bucket → Bucket → Type 0
  Newer a b = b.time < a.time

  put_row-All :
      (P : ℕ → Type 0) (time : ℕ) (t : Trade) (bs : List Bucket)
      → P time
      → All (λ b. P b.time) bs
      → All (λ b. P b.time) (put_row time t bs)
  unfolding put_row
  put_row-All P time t [] p h = (p, tt)
  put_row-All P time t (b ∷ bs) p h =
      chosen (time == b.time) (ltb b.time time) (put_row-All P time t bs p h.1)
    where
      chosen :
          (same after : Bool)
          → All (λ b. P b.time) (put_row time t bs)
          → All
              (λ b. P b.time)
              (if same
                then record b { others = b.others ++ t ∷ [] } ∷ bs
                else if after
                then record { time = time; one = t; others = [] } ∷ b ∷ bs
                else b ∷ put_row time t bs)
      chosen true after rest = h
      chosen false true rest = (p, h)
      chosen false false rest = (h.0, rest)

  put_row-Sorted :
      (time : ℕ) (t : Trade) (bs : List Bucket) → Sorted Newer bs → Sorted Newer (put_row time t bs)
  unfolding put_row
  put_row-Sorted time t [] s = (tt, tt)
  put_row-Sorted time t (b ∷ bs) s =
      chosen (time == b.time) refl (ltb b.time time) refl (put_row-Sorted time t bs s.1)
        (λ older. put_row-All (λ n. n < b.time) time t bs older s.0)
    where
      chosen :
          (same : Bool)
          → (time == b.time) ≡ same
          → (after : Bool) → ltb b.time time ≡ after
          → Sorted Newer (put_row time t bs)
          → (time < b.time → All (λ x. x.time < b.time) (put_row time t bs))
          → Sorted Newer (
              if same
              then record b { others = b.others ++ t ∷ [] } ∷ bs
              else if after
              then record { time = time; one = t; others = [] } ∷ b ∷ bs
              else b ∷ put_row time t bs)
      chosen true _ after _ rest below = s
      chosen false _ true newer rest below =
          let lt = ltb→lt b.time time newer in ((lt, All-map _ _ bs (λ x h. omega arith) s.0), s)
      chosen false other false older rest below = (below (ground arith), rest)

  -- Every bucket's time is a multiple of the interval.
  abbrev pub Aligned : ℕ → ℕ → Type 0
  Aligned interval time = (q : ℕ) × (time ≡ q * interval)

  pub group_rows-Sorted :
      (interval : ℕ) (rows : List Trade) (bs : List Bucket)
      → Sorted Newer bs
      → All (λ b. Aligned interval b.time) bs
      → Sorted Newer (group_rows interval rows bs)
        × All (λ b. Aligned interval b.time) (group_rows interval rows bs)
  unfolding group_rows
  group_rows-Sorted interval [] bs s h = (s, h)
  group_rows-Sorted interval (t ∷ rows) bs s h =
      group_rows-Sorted interval rows (put_row (bucket_of interval t) t bs)
        (put_row-Sorted (bucket_of interval t) t bs s)
        (put_row-All (Aligned interval) (bucket_of interval t) t bs (t.created_at / interval, refl)
          h)

  -- Candles newest first, each aligned to the interval, within its prices.
  pub record AreCandles (interval : ℕ) (ks : List KLine) : Type 0 where
    pub newest_first : Sorted (λ (a b : KLine). b.timestamp < a.timestamp) ks
    pub aligned : All (λ (k : KLine). Aligned interval k.timestamp) ks
    pub candles : All IsCandle ks

  pub klines-AreCandles :
      (limit interval : ℕ) (bs : List Bucket)
      → Sorted Newer bs
      → All (λ b. Aligned interval b.time) bs
      → AreCandles interval (take limit (map kline bs))
        × (length (take limit (map kline bs)) ≤ limit)
  unfolding kline
  klines-AreCandles zero interval bs s h =
      (record { newest_first = tt; aligned = tt; candles = tt }, omega arith)
  klines-AreCandles (suc limit) interval [] s h =
      (record { newest_first = tt; aligned = tt; candles = tt }, omega arith)
  klines-AreCandles (suc limit) interval (b ∷ bs) s h =
      let (rest, le) = klines-AreCandles limit interval bs s.1 h.1 in
      (
        record {
          newest_first = (older limit bs s.0, rest.newest_first);
          aligned = (h.0, rest.aligned);
          candles = (kline-IsCandle b, rest.candles);
        },
        omega arith,
      )
    where
      older :
          (n : ℕ) (bs : List Bucket)
          → All (Newer b) bs
          → All (λ (k : KLine). k.timestamp < b.time) (take n (map kline bs))
      older zero bs h = tt
      older (suc n) [] h = tt
      older (suc n) (x ∷ bs) h = (h.0, older n bs h.1)
