-- ===== src/Middleware/Idempotency/Entries.antt =====
-- The entries of the store by their keys.
use cyptocurrency_exchange_b.Prelude.{
  ℕ, String, ◌≡◌, refl, ap, ◌∙◌, Bool, true, false, some, [], ◌∷◌, str_eq, eq_iff, if◌then◌else◌,
  arith,
}
use cyptocurrency_exchange_b.Middleware.Idempotency.{
  Entry, Store, find_entry, has_expired, put_entry, clean,
}

pub find_entry-put_entry :
    (key other : String) (e : Entry) (store : Store)
    → find_entry other (put_entry key e store)
      ≡ (if str_eq key other then some e else find_entry other store)
unfolding find_entry put_entry
find_entry-put_entry key other e [] = refl
find_entry-put_entry key other e ((k, old) ∷ entries) = ground (
  arith,
  eq_iff key other,
  eq_iff k key,
  eq_iff k other,
  find_entry-put_entry key other e entries,
)

pub find_entry-clean :
    (at : ℕ) (key : String) (e : Entry) (store : Store)
    → has_expired at e ≡ false
    → find_entry key store ≡ some e
    → find_entry key (clean at store) ≡ some e
unfolding find_entry clean
find_entry-clean at key e [] fresh found = found
find_entry-clean at key e ((k, x) ∷ entries) fresh found =
    chosen (str_eq k key) refl found (find_entry-clean at key e entries fresh)
  where
    here :
        str_eq k key ≡ true
        → x ≡ e
        → find_entry key (if has_expired at x then clean at entries else (k, x) ∷ clean at entries)
          ≡ some e
    here same x_is =
        let kept : has_expired at x ≡ false = ap (has_expired at) x_is ∙ fresh in
        rw (kept, same) (ap some x_is)

    there :
        (expired : Bool)
        → str_eq k key ≡ false
        → find_entry key (clean at entries) ≡ some e
        → find_entry key (if expired then clean at entries else (k, x) ∷ clean at entries) ≡ some e
    there true other later = later
    there false other later = rw other later

    chosen :
        (b : Bool)
        → str_eq k key ≡ b
        → (if b then some x else find_entry key entries) ≡ some e
        → (find_entry key entries ≡ some e → find_entry key (clean at entries) ≡ some e)
        → find_entry key (if has_expired at x then clean at entries else (k, x) ∷ clean at entries)
          ≡ some e
    chosen true same found later = here same (cc)
    chosen false other found later = there (has_expired at x) other (later found)
