-- ===== src/Engine/Manager.antt =====
-- internal/matching/engine/manager.go: the engines of a process, by symbol. The second look under the
-- write lock finds what the first one found, as each call is one step.
use cyptocurrency_exchange_b.Prelude.{
  String, ◌≡◌, refl, ◌⊎◌, inl, inr, true, false, Option, none, some, List, [], ◌∷◌, str_eq, eq_iff,
  if◌then◌else◌, arith,
}
use cyptocurrency_exchange_b.Decimal.{DecimalLib}
use cyptocurrency_exchange_b.Engine.Matching.{Engine, new_engine}

module _ ⦃lib : DecimalLib⦄ where
  abbrev pub EngineManager : Type 0
  EngineManager = List (String × Engine)

  abbrev pub new_engine_manager : EngineManager
  new_engine_manager = []

  unfoldable pub find_engine : String → EngineManager → Option Engine
  find_engine symbol [] = none
  find_engine symbol ((s, e) ∷ engines) =
      if str_eq s symbol then some e else find_engine symbol engines

  abbrev pub found_or_new : String → EngineManager → Option Engine → Engine × EngineManager
  found_or_new symbol m (some e) = (e, m)
  found_or_new symbol m none = (new_engine symbol, (symbol, new_engine symbol) ∷ m)

  unfoldable pub get_engine : String → EngineManager → Engine × EngineManager
  unfolding find_engine
  get_engine symbol m = found_or_new symbol m (find_engine symbol m)

  -- the keys of the map, in some order
  abbrev pub get_symbols : EngineManager → List String
  get_symbols [] = []
  get_symbols ((s, e) ∷ engines) = s ∷ get_symbols engines

  abbrev pub reset : EngineManager → EngineManager
  reset m = []

  -- `GetEngine` returns the engine that is registered from then on under the symbol: the one that was
  -- there, or a new one; under every other symbol it leaves what was there.
  pub get_engine-registers :
      (symbol other : String) (m : EngineManager)
      → str_eq symbol other ≡ false
      → (find_engine symbol (get_engine symbol m).1 ≡ some (get_engine symbol m).0)
        × (find_engine other (get_engine symbol m).1 ≡ find_engine other m)
        × (((e : Engine) × (find_engine symbol m ≡ some e) × ((get_engine symbol m).0 ≡ e))
            ⊎ ((find_engine symbol m ≡ none) × ((get_engine symbol m).0 ≡ new_engine symbol)))
  unfolding get_engine find_engine
  get_engine-registers symbol other m apart = registered (find_engine symbol m) refl
    where
      same : str_eq symbol symbol ≡ true
      same = ground (arith, eq_iff symbol symbol)

      registered :
          (x : Option Engine)
          → find_engine symbol m ≡ x
          → (find_engine symbol (found_or_new symbol m x).1 ≡ some (found_or_new symbol m x).0)
            × (find_engine other (found_or_new symbol m x).1 ≡ find_engine other m)
            × (((e : Engine) × (find_engine symbol m ≡ some e) × ((found_or_new symbol m x).0 ≡ e))
                ⊎ ((find_engine symbol m ≡ none)
                    × ((found_or_new symbol m x).0 ≡ new_engine symbol)))
      registered (some e) h = (h, refl, inl (e, h, refl))
      registered none h = (rw same refl, rw apart refl, inr (h, refl))
