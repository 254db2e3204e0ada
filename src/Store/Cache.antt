-- ===== src/Store/Cache.antt =====
-- internal/repository/cache_repository.go over the Redis keys `exchange:orderbook:<symbol>`. A cached
-- text is the snapshot that it encodes. The Lua script of a write runs as one step.
pub mod LatestWins
use cyptocurrency_exchange_b.Prelude.{
  ℕ, String, Bool, true, false, ◌&&◌, Option, none, some, List, [], ◌∷◌, ltb, str_eq, if◌then◌else◌,
}
use cyptocurrency_exchange_b.Decimal.{DecimalLib}
use cyptocurrency_exchange_b.Engine.Types.{OrderBookSnapshot}

module _ ⦃lib : DecimalLib⦄ where
  abbrev pub Cache : Type 0
  Cache = List (String × OrderBookSnapshot)

  -- `none` is `redis.Nil`
  unfoldable pub get_order_book_snapshot : String → Cache → Option OrderBookSnapshot
  get_order_book_snapshot symbol [] = none
  get_order_book_snapshot symbol ((s, snapshot) ∷ rows) =
      if str_eq s symbol then some snapshot else get_order_book_snapshot symbol rows

  abbrev pub set_key : String → OrderBookSnapshot → Cache → Cache
  set_key symbol snapshot [] = (symbol, snapshot) ∷ []
  set_key symbol snapshot ((s, old) ∷ rows) =
      let rest = set_key symbol snapshot rows in
      if str_eq s symbol then (symbol, snapshot) ∷ rows else (s, old) ∷ rest

  abbrev pub refuses : ℕ → Option OrderBookSnapshot → Bool
  refuses new_token none = false
  refuses new_token (some current) = ltb 0 new_token && ltb new_token current.fencing_token

  -- `false` is the error for a stale token
  unfoldable pub set_order_book_snapshot : OrderBookSnapshot → Cache → Bool × Cache
  unfolding get_order_book_snapshot
  set_order_book_snapshot snapshot cache =
      if refuses snapshot.fencing_token (get_order_book_snapshot snapshot.symbol cache)
      then (false, cache)
      else (true, set_key snapshot.symbol snapshot cache)
