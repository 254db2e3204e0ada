-- ===== src/Store/Accounts/Balances.antt =====
-- What the updates of the `accounts` table do to the money in it.
use cyptocurrency_exchange_b.Prelude.{
  ℕ, suc, String, ◌≡◌, refl, ◌⊎◌, inl, inr, ap, subst, Bool, true, false, ◌&&◌, Option, none, some,
  List, [], ◌∷◌, map, Bool-cases, All, str_eq, eq_iff, ◌==◌, if◌then◌else◌, arith,
}
use cyptocurrency_exchange_b.Prelude.Int.{ℤ, pos, ◌+ℤ◌, ◌≤ℤ◌, parts_of_eq, eq_of_parts}
use cyptocurrency_exchange_b.Prelude.Order.{Sorted}
use cyptocurrency_exchange_b.Decimal.{DecimalLib, Decimal, value, zero_dec, add}
use cyptocurrency_exchange_b.Decimal.Laws.{decimal_sums, less_than→ge, zero_pos, zero_neg}
use cyptocurrency_exchange_b.Engine.Types.{Uuid}
use cyptocurrency_exchange_b.Domain.Models.{Account}
use cyptocurrency_exchange_b.Store.Accounts.{
  is_account, passes_checks, update_rows, credit, lock, unlock,
}

abbrev pub is_key : Uuid → String → Uuid × String → Bool
is_key user_id currency (u, c) = u == user_id && str_eq c currency

module _ ⦃lib : DecimalLib⦄ where
  -- An update, row by row.
  pub data Rewrites (p : Account → Bool) (f : Account → Account)
      : List Account → List Account → ℕ → Type 0 where
    end : Rewrites p f [] [] 0
    kept :
        (a : Account) (rows rows' : List Account) (n : ℕ)
        → p a ≡ false
        → Rewrites p f rows rows' n
        → Rewrites p f (a ∷ rows) (a ∷ rows') n
    set :
        (a : Account) (rows rows' : List Account) (n : ℕ)
        → p a ≡ true
        → passes_checks (f a) ≡ true
        → Rewrites p f rows rows' n
        → Rewrites p f (a ∷ rows) (f a ∷ rows') (suc n)

  abbrev pub RewritesTo :
      (Account → Bool) → (Account → Account) → List Account → Option (List Account × ℕ) → Type 0
  RewritesTo p f rows none = Unit {0}
  RewritesTo p f rows (some (rows', n)) = Rewrites p f rows rows' n

  one_more :
      (p : Account → Bool) (f : Account → Account) (a : Account) (rows rows' : List Account) (n : ℕ)
      → Rewrites p f rows rows' n
      → RewritesTo p f (a ∷ rows) (
          if p a
          then (if passes_checks (f a) then some (f a ∷ rows', suc n) else none)
          else some (a ∷ rows', n))
  one_more p f a rows rows' n r = elim (Bool-cases (p a)) [
    | inl hit ↦ elim (Bool-cases (passes_checks (f a))) [
      | inl passes ↦ rw (hit, passes) (set a rows rows' n hit passes r)
      | inr breaks ↦ rw (hit, breaks) tt
    ]
    | inr miss ↦ rw miss (kept a rows rows' n miss r)
  ]

  pub update_rows-Rewrites :
      (p : Account → Bool) (f : Account → Account) (rows : List Account)
      → RewritesTo p f rows (update_rows p f rows)
  unfolding update_rows
  update_rows-Rewrites p f [] = end
  update_rows-Rewrites p f (a ∷ rows) = head (update_rows p f rows) (update_rows-Rewrites p f rows)
    where
      head :
          (r : Option (List Account × ℕ))
          → RewritesTo p f rows r
          → RewritesTo p f (a ∷ rows) (elim r [
            | none ↦ none
            | some (rows', n) ↦
                if p a
                then (if passes_checks (f a) then some (f a ∷ rows', suc n) else none)
                else some (a ∷ rows', n)
          ])
      head none h = tt
      head (some (rows', n)) h = one_more p f a rows rows' n h

  -- What an account holds of a currency, available or locked.
  abbrev pub held_in : String → Account → ℤ
  held_in currency a =
      if str_eq a.currency currency then value a.balance +ℤ value a.locked else pos 0

  -- All that the table holds of a currency.
  abbrev pub holdings : String → List Account → ℤ
  holdings currency [] = pos 0
  holdings currency (a ∷ rows) = held_in currency a +ℤ holdings currency rows

  -- The constraints of the columns, as values.
  abbrev pub IsSound : Account → Type 0
  IsSound a = (pos 0 ≤ℤ value a.balance) × (pos 0 ≤ℤ value a.locked)

  abbrev pub key : Account → Uuid × String
  key a = (a.user_id, a.currency)

  -- `UNIQUE(user_id, currency)`
  abbrev pub IsUnique : List (Uuid × String) → Type 0
  IsUnique = Sorted (λ k l. is_key k.0 k.1 l ≡ false)

  -- The user has an account in the currency.
  abbrev pub HasKey : Uuid → String → List (Uuid × String) → Type 0
  HasKey user_id currency [] = ⊥
  HasKey user_id currency (k ∷ ks) = (is_key user_id currency k ≡ true) ⊎ HasKey user_id currency ks

  -- An update that added `delta` to what the table holds of a currency, and no account.
  pub record Updated (currency : String) (delta : ℤ) (rows rows' : List Account) : Type 0 where
    pub keys : map key rows' ≡ map key rows
    pub held : holdings currency rows' ≡ holdings currency rows +ℤ delta
    pub sound : All IsSound rows → All IsSound rows'

  passes_checks-IsSound : (a : Account) → passes_checks a ≡ true → IsSound a
  passes_checks-IsSound a h = (
    omega (arith, zero_pos, zero_neg, less_than→ge a.balance zero_dec (ground arith)),
    omega (arith, zero_pos, zero_neg, less_than→ge a.locked zero_dec (ground arith)),
  )

  -- A rewriting of rows that moves money only within each row.
  pub Rewrites-Updated :
      (p : Account → Bool) (f : Account → Account) (currency : String) (delta : ℤ)
      → ((a : Account) → key (f a) ≡ key a)
      → ((a : Account) → held_in currency (f a) ≡ held_in currency a)
      → {rows rows' : List Account} {n : ℕ} → Rewrites p f rows rows' n
      → delta ≡ pos 0
      → Updated currency delta rows rows'
  Rewrites-Updated p f currency delta same_key same_held end zero = record {
    keys = refl;
    held = rw zero (eq_of_parts _ _ (omega decimal_sums));
    sound = λ h. h;
  }
  Rewrites-Updated p f currency delta same_key same_held (kept a rows rows' n miss r) zero =
      let u = Rewrites-Updated p f currency delta same_key same_held r zero in
      record {
        keys = ap (◌∷◌ (key a)) u.keys;
        held = eq_of_parts _ _ (omega (decimal_sums, parts_of_eq _ _ u.held));
        sound = λ h. (h.0, u.sound h.1);
      }
  Rewrites-Updated p f currency delta same_key same_held (set a rows rows' n hit passes r) zero =
      let u = Rewrites-Updated p f currency delta same_key same_held r zero in
      record {
        keys = λ i. same_key a i ∷ u.keys i;
        held = rw (same_held a) (eq_of_parts _ _ (omega (decimal_sums, parts_of_eq _ _ u.held)));
        sound = λ h. (passes_checks-IsSound (f a) passes, u.sound h.1);
      }

  pub lock-held :
      (currency : String) (amount : Decimal) (at : ℕ) (a : Account)
      → held_in currency (lock amount at a) ≡ held_in currency a
  lock-held currency amount at a = elim (Bool-cases (str_eq a.currency currency)) [
    | inl same ↦ rw same (eq_of_parts _ _ (omega decimal_sums))
    | inr other ↦ rw other refl
  ]

  pub unlock-held :
      (currency : String) (amount : Decimal) (at : ℕ) (a : Account)
      → held_in currency (unlock amount at a) ≡ held_in currency a
  unlock-held currency amount at a = elim (Bool-cases (str_eq a.currency currency)) [
    | inl same ↦ rw same (eq_of_parts _ _ (omega decimal_sums))
    | inr other ↦ rw other refl
  ]

  -- What an amount of one currency is in another: nothing.
  abbrev pub share : String → String → Decimal → ℤ
  share currency c amount = if str_eq c currency then value amount else pos 0

  credit-held :
      (currency c : String) (user_id : Uuid) (amount : Decimal) (at : ℕ) (a : Account)
      → is_account user_id c a ≡ true
      → held_in currency (credit amount at a) ≡ held_in currency a +ℤ share currency c amount
  credit-held currency c user_id amount at a hit =
      let same : a.currency ≡ c = ground (arith, eq_iff a.currency c) in
      rw (ap (λ t. str_eq t currency) same) (split (str_eq c currency))
    where
      split :
          (b : Bool)
          → (if b then value (add a.balance amount) +ℤ value a.locked else pos 0)
            ≡ (if b then value a.balance +ℤ value a.locked else pos 0)
              +ℤ (if b then value amount else pos 0)
      split true = eq_of_parts _ _ (omega decimal_sums)
      split false = eq_of_parts _ _ (omega decimal_sums)

  credit_nobody :
      (currency c : String) (user_id : Uuid) (amount : Decimal) (at : ℕ) {rows rows' : List Account}
      {n : ℕ}
      → Rewrites (is_account user_id c) (credit amount at) rows rows' n
      → All (λ k. is_key user_id c k ≡ false) (map key rows)
      → Updated currency (pos 0) rows rows'
  credit_nobody currency c user_id amount at end h = record {
    keys = refl;
    held = eq_of_parts _ _ (omega decimal_sums);
    sound = λ s. s;
  }
  credit_nobody currency c user_id amount at (kept a rows rows' n miss r) h =
      let u = credit_nobody currency c user_id amount at r h.1 in
      record {
        keys = ap (◌∷◌ (key a)) u.keys;
        held = eq_of_parts _ _ (omega (decimal_sums, parts_of_eq _ _ u.held));
        sound = λ s. (s.0, u.sound s.1);
      }
  credit_nobody currency c user_id amount at (set a rows rows' n hit passes r) h =
      ground (arith, h.0, hit)

  same_account :
      (user_id : Uuid) (c : String) (a : Account) (ks : List (Uuid × String))
      → is_account user_id c a ≡ true
      → All (λ l. is_key a.user_id a.currency l ≡ false) ks
      → All (λ l. is_key user_id c l ≡ false) ks
  same_account user_id c a ks hit h =
      subst (λ u. All (λ l. is_key u c l ≡ false) ks) (ground (arith, hit))
        (subst (λ t. All (λ l. is_key a.user_id t l ≡ false) ks)
          (ground (arith, hit, eq_iff a.currency c)) h)

  -- Where the user has its one account in the currency, the credit arrives there, once.
  pub credit-Updated :
      (currency c : String) (user_id : Uuid) (amount : Decimal) (at : ℕ) {rows rows' : List Account}
      {n : ℕ}
      → Rewrites (is_account user_id c) (credit amount at) rows rows' n
      → IsUnique (map key rows)
      → HasKey user_id c (map key rows)
      → Updated currency (share currency c amount) rows rows'
  credit-Updated currency c user_id amount at end unique has = absurd has
  credit-Updated currency c user_id amount at (kept a rows rows' n miss r) unique has =
      let u = credit-Updated currency c user_id amount at r unique.1 (elsewhere has) in
      record {
        keys = ap (◌∷◌ (key a)) u.keys;
        held = eq_of_parts _ _ (omega (decimal_sums, parts_of_eq _ _ u.held));
        sound = λ s. (s.0, u.sound s.1);
      }
    where
      elsewhere : HasKey user_id c (map key (a ∷ rows)) → HasKey user_id c (map key rows)
      elsewhere (inl here) = ground (arith, here, miss)
      elsewhere (inr there) = there
  credit-Updated currency c user_id amount at (set a rows rows' n hit passes r) unique has =
      let u =
        credit_nobody currency c user_id amount at r (same_account user_id c a _ hit unique.0) in
      record {
        keys = ap (◌∷◌ (key a)) u.keys;
        held =
            rw (credit-held currency c user_id amount at a hit)
              (eq_of_parts _ _ (omega (decimal_sums, parts_of_eq _ _ u.held)));
        sound = λ s. (passes_checks-IsSound (credit amount at a) passes, u.sound s.1);
      }
