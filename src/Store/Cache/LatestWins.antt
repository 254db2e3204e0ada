-- ===== src/Store/Cache/LatestWins.antt =====
-- The cached snapshot of a symbol under the writes of several leaders.
use cyptocurrency_exchange_b.Prelude.{
  ℕ, ◌≤◌, ◌<◌, String, ◌≡◌, refl, ap, sym, subst, ◌∙◌, ◌⊎◌, inl, inr, Bool, true, false, ◌&&◌,
  Option, none, some, List, [], ◌∷◌, All, Bool-cases, ltb, str_eq, eq_iff, if◌then◌else◌, arith,
}
use cyptocurrency_exchange_b.Decimal.{DecimalLib}
use cyptocurrency_exchange_b.Engine.Types.{OrderBookSnapshot}
use cyptocurrency_exchange_b.Store.Cache.{
  Cache, get_order_book_snapshot, set_key, refuses, set_order_book_snapshot,
}

module _ ⦃lib : DecimalLib⦄ where
  get-set_key :
      (symbol other : String) (snapshot : OrderBookSnapshot) (cache : Cache)
      → get_order_book_snapshot other (set_key symbol snapshot cache)
        ≡ (if str_eq symbol other then some snapshot else get_order_book_snapshot other cache)
  unfolding get_order_book_snapshot
  get-set_key symbol other snapshot [] = refl
  get-set_key symbol other snapshot ((s, old) ∷ rows) = ground (
    arith,
    eq_iff symbol other,
    eq_iff s symbol,
    eq_iff s other,
    get-set_key symbol other snapshot rows,
  )

  abbrev pub cached_token : Option OrderBookSnapshot → ℕ
  cached_token none = 0
  cached_token (some snapshot) = snapshot.fencing_token

  -- A write was refused for a token that is above 0 and below that of the cached snapshot, and has
  -- changed nothing; or the symbol has the snapshot now, whose token is not below or is 0.
  abbrev pub Written : OrderBookSnapshot → Cache → Bool × Cache → Type 0
  Written snapshot cache (false, cache') =
      (cache' ≡ cache)
      × (0 < snapshot.fencing_token)
      × (snapshot.fencing_token < cached_token (get_order_book_snapshot snapshot.symbol cache))
  Written snapshot cache (true, cache') =
      ((other : String)
        → get_order_book_snapshot other cache' ≡ (
            if str_eq snapshot.symbol other
            then some snapshot
            else get_order_book_snapshot other cache))
      × ((cached_token (get_order_book_snapshot snapshot.symbol cache) ≤ snapshot.fencing_token)
          ⊎ (snapshot.fencing_token ≡ 0))

  pub set_order_book_snapshot-Written :
      (snapshot : OrderBookSnapshot) (cache : Cache)
      → Written snapshot cache (set_order_book_snapshot snapshot cache)
  unfolding set_order_book_snapshot
  set_order_book_snapshot-Written snapshot cache =
      chosen (get_order_book_snapshot snapshot.symbol cache) refl
    where
      written :
          (other : String)
          → get_order_book_snapshot other (set_key snapshot.symbol snapshot cache) ≡ (
              if str_eq snapshot.symbol other
              then some snapshot
              else get_order_book_snapshot other cache)
      written other = get-set_key snapshot.symbol other snapshot cache

      by_test :
          (current : OrderBookSnapshot) (b : Bool)
          → (ltb 0 snapshot.fencing_token && ltb snapshot.fencing_token current.fencing_token) ≡ b
          → get_order_book_snapshot snapshot.symbol cache ≡ some current
          → Written snapshot cache
              (if b then (false, cache) else (true, set_key snapshot.symbol snapshot cache))
      by_test current true test found = (
        refl,
        ground arith,
        subst (λ o. snapshot.fencing_token < cached_token o) (sym found) (ground arith),
      )
      by_test current false test found = (
        written,
        subst (λ o. (cached_token o ≤ snapshot.fencing_token) ⊎ (snapshot.fencing_token ≡ 0))
            (sym found) (ground arith),
      )

      chosen :
          (o : Option OrderBookSnapshot)
          → get_order_book_snapshot snapshot.symbol cache ≡ o
          → Written snapshot cache (
              if refuses snapshot.fencing_token o
              then (false, cache)
              else (true, set_key snapshot.symbol snapshot cache))
      chosen none found = (
        written,
        subst (λ o. (cached_token o ≤ snapshot.fencing_token) ⊎ (snapshot.fencing_token ≡ 0))
            (sym found) (inl (omega arith)),
      )
      chosen (some current) found =
          by_test current (refuses snapshot.fencing_token (some current)) refl found

  abbrev pub token_under : String → Cache → ℕ
  token_under symbol cache = cached_token (get_order_book_snapshot symbol cache)

  -- What one write under a token above 0 leaves as the token of a symbol.
  write-token :
      (snapshot : OrderBookSnapshot) (cache : Cache) (r : Bool × Cache) (symbol : String)
      → 0 < snapshot.fencing_token
      → Written snapshot cache r
      → (token_under symbol cache ≤ token_under symbol r.1)
        × (str_eq snapshot.symbol symbol ≡ true → snapshot.fencing_token ≤ token_under symbol r.1)
  write-token snapshot cache (false, cache') symbol positive (same, _, stale) = (
    subst (λ c. token_under symbol cache ≤ token_under symbol c) (sym same) (omega arith),
    λ own.
        subst (λ c. snapshot.fencing_token ≤ token_under symbol c) (sym same)
          (subst (λ x. snapshot.fencing_token ≤ token_under x cache)
            ((eq_iff snapshot.symbol symbol).0 own) (omega arith)),
  )
  write-token snapshot cache (true, cache') symbol positive (written, not_stale) =
      elim (Bool-cases (str_eq snapshot.symbol symbol)) [
        | inl own ↦
            let same = (eq_iff snapshot.symbol symbol).0 own in
            let now_there : token_under symbol cache' ≡ snapshot.fencing_token =
              ap cached_token (written symbol)
              ∙ ap
                  (λ b.
                    cached_token
                      (if b then some snapshot else get_order_book_snapshot symbol cache))
                  own in
            let before : token_under symbol cache ≤ snapshot.fencing_token =
              subst (λ x. token_under x cache ≤ snapshot.fencing_token) same (ground arith) in
            (omega arith, λ _. omega arith)
        | inr other ↦
            let as_before : token_under symbol cache' ≡ token_under symbol cache =
              ap cached_token (written symbol)
              ∙ ap
                  (λ b.
                    cached_token
                      (if b then some snapshot else get_order_book_snapshot symbol cache))
                  other in
            (omega arith, λ own. absurd (cc))
      ]

  -- The cache after writes by any leaders, in the order in which they reach Redis.
  abbrev pub write_all : List OrderBookSnapshot → Cache → Cache
  write_all [] cache = cache
  write_all (snapshot ∷ snapshots) cache =
      write_all snapshots (set_order_book_snapshot snapshot cache).1

  write_all_mono :
      (snapshots : List OrderBookSnapshot) (cache : Cache) (symbol : String)
      → All (λ s. 0 < s.fencing_token) snapshots
      → token_under symbol cache ≤ token_under symbol (write_all snapshots cache)
  write_all_mono [] cache symbol h = omega arith
  write_all_mono (s ∷ ss) cache symbol h =
      let r = set_order_book_snapshot s cache in
      let (step, _) = write-token s cache r symbol h.0 (set_order_book_snapshot-Written s cache) in
      omega (arith, write_all_mono ss r.1 symbol h.1)

  -- After writes under tokens above 0, in any order, the cached snapshot of a symbol has a token that
  -- is not below that of any snapshot of the symbol that was written, or was already there: a
  -- superseded leader's late snapshot does not replace a later leader's.
  pub write_all-newest :
      (snapshots : List OrderBookSnapshot) (cache : Cache) (symbol : String)
      → All (λ s. 0 < s.fencing_token) snapshots
      → (token_under symbol cache ≤ token_under symbol (write_all snapshots cache))
        × All
            (λ s.
              str_eq s.symbol symbol ≡ true
              → s.fencing_token ≤ token_under symbol (write_all snapshots cache))
            snapshots
  write_all-newest [] cache symbol h = (omega arith, tt)
  write_all-newest (s ∷ ss) cache symbol h =
      let r = set_order_book_snapshot s cache in
      let (_, own) = write-token s cache r symbol h.0 (set_order_book_snapshot-Written s cache) in
      let grows = write_all_mono ss r.1 symbol h.1 in
      (
        write_all_mono (s ∷ ss) cache symbol h,
        ((λ same. let le = own same in omega arith), (write_all-newest ss r.1 symbol h.1).1),
      )
