-- ===== src/MatchingService/Engines.antt =====
-- The engines of a process under `GetEngine` and a change of one of them.
use cyptocurrency_exchange_b.Prelude.{
  String, ◌≡◌, refl, subst, inl, inr, Bool, true, false, Option, none, some, [], ◌∷◌, All,
  Bool-cases, str_eq, eq_iff, if◌then◌else◌, arith,
}
use cyptocurrency_exchange_b.Decimal.{DecimalLib}
use cyptocurrency_exchange_b.Engine.Matching.{Engine, new_engine}
use cyptocurrency_exchange_b.Engine.Manager.{EngineManager, find_engine, found_or_new, get_engine}
use cyptocurrency_exchange_b.MatchingService.{write_engine}

pub str_eq_refl : (s : String) → str_eq s s ≡ true
str_eq_refl s = ground (arith, eq_iff s s)

module _ ⦃lib : DecimalLib⦄ where
  -- Every engine satisfies `P`.
  abbrev pub AllEngines : (Engine → Type 0) → EngineManager → Type 0
  AllEngines P m = All (λ row. P row.1) m

  -- Lookups after a change through the pointer of a registered engine.
  pub find_engine-write_engine :
      (symbol other : String) (e old : Engine) (m : EngineManager)
      → find_engine symbol m ≡ some old
      → find_engine other (write_engine symbol e m)
        ≡ (if str_eq symbol other then some e else find_engine other m)
  unfolding find_engine write_engine
  find_engine-write_engine symbol other e old [] h = absurd (cc)
  find_engine-write_engine symbol other e old ((s, x) ∷ m) h = ground (
    arith,
    eq_iff symbol other,
    eq_iff s symbol,
    eq_iff s other,
    find_engine-write_engine symbol other e old m,
  )

  pub write_engine-All :
      (P : Engine → Type 0) (symbol : String) (e : Engine) (m : EngineManager)
      → P e
      → AllEngines P m
      → AllEngines P (write_engine symbol e m)
  unfolding write_engine
  write_engine-All P symbol e [] p h = tt
  write_engine-All P symbol e ((s, x) ∷ m) p h = elim (Bool-cases (str_eq s symbol)) [
    | inl here ↦ rw (here, write_engine) (p, h.1)
    | inr there ↦ rw (there, write_engine) (h.0, write_engine-All P symbol e m p h.1)
  ]

  pub find_engine-All :
      (P : Engine → Type 0) (symbol : String) (e : Engine) (m : EngineManager)
      → AllEngines P m
      → find_engine symbol m ≡ some e
      → P e
  unfolding find_engine
  find_engine-All P symbol e [] h found = absurd (cc)
  find_engine-All P symbol e ((s, x) ∷ m) h found =
      chosen (str_eq s symbol) (find_engine-All P symbol e m h.1) found
    where
      chosen :
          (b : Bool)
          → (find_engine symbol m ≡ some e → P e)
          → (if b then some x else find_engine symbol m) ≡ some e
          → P e
      chosen true later same = subst P (cc) h.0
      chosen false later same = later same

  -- `GetEngine` hands out an engine that satisfies what all engines, new ones too, satisfy.
  pub get_engine-All :
      (P : Engine → Type 0) (symbol : String) (m : EngineManager)
      → P (new_engine symbol)
      → AllEngines P m
      → P (get_engine symbol m).0 × AllEngines P (get_engine symbol m).1
  unfolding get_engine
  get_engine-All P symbol m new h = chosen (find_engine symbol m) refl
    where
      chosen :
          (o : Option Engine)
          → find_engine symbol m ≡ o
          → P (found_or_new symbol m o).0 × AllEngines P (found_or_new symbol m o).1
      chosen none same = (new, (new, h))
      chosen (some e) same = (find_engine-All P symbol e m h same, h)

  pub get_engine-found :
      (symbol : String) (m : EngineManager)
      → find_engine symbol (get_engine symbol m).1 ≡ some (get_engine symbol m).0
  unfolding get_engine find_engine
  get_engine-found symbol m = chosen (find_engine symbol m) refl
    where
      chosen :
          (o : Option Engine)
          → find_engine symbol m ≡ o
          → find_engine symbol (found_or_new symbol m o).1 ≡ some (found_or_new symbol m o).0
      chosen none same = rw (str_eq_refl symbol) refl
      chosen (some e) same = same

  pub get_engine-other :
      (symbol other : String) (m : EngineManager)
      → str_eq symbol other ≡ false
      → find_engine other (get_engine symbol m).1 ≡ find_engine other m
  unfolding get_engine find_engine
  get_engine-other symbol other m apart = chosen (find_engine symbol m)
    where
      chosen :
          (o : Option Engine) → find_engine other (found_or_new symbol m o).1 ≡ find_engine other m
      chosen none = rw apart refl
      chosen (some e) = refl
