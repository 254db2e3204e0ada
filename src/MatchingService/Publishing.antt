-- ===== src/MatchingService/Publishing.antt =====
-- The loops around `Publish`: what they send, and that they end.
use mathlib.Core.List.{append-nil, append_assoc}
use cyptocurrency_exchange_b.Prelude.{
  ℕ, zero, suc, ◌+◌, ◌<◌, ◌≡◌, ◌≢◌, refl, ap, sym, subst, ◌∙◌, ◌⊎◌, inl, inr, Option, none, some,
  List, [], ◌∷◌, ◌++◌, arith,
}
use cyptocurrency_exchange_b.Decimal.{DecimalLib}
use cyptocurrency_exchange_b.MatchingService.{with_token}
use cyptocurrency_exchange_b.MatchingService.Bus.{
  Attempt, delivered, failed, canceled, Outcome, done, ctx_canceled, Env, Sent, Subscriber, Step,
  called, load_token, store_token, then_step, publish_retry, publish_each,
}

-- From any call on, one of the next `fuel` attempts to publish does not simply fail.
abbrev pub Patient : ℕ → Env → Type 0
Patient fuel env = (n : ℕ) → (k : ℕ) × (k < fuel) × (env.publish (n + k) ≢ failed)

Attempt-cases : (a : Attempt) → (a ≡ delivered) ⊎ ((a ≡ canceled) ⊎ (a ≡ failed))
Attempt-cases delivered = inl refl
Attempt-cases canceled = inr (inl refl)
Attempt-cases failed = inr (inr refl)

module _ ⦃lib : DecimalLib⦄ where
  -- The two states differ at most in the token, the cache, the bus and the number of calls.
  pub record Alike (s s' : Subscriber) : Type 0 where
    pub engine_manager : s'.engine_manager ≡ s.engine_manager
    pub env : s'.env ≡ s.env
    pub has_event_bus : s'.has_event_bus ≡ s.has_event_bus
    pub has_cache_repo : s'.has_cache_repo ≡ s.has_cache_repo

  pub Alike-trans : (s t u : Subscriber) → Alike s t → Alike t u → Alike s u
  Alike-trans s t u h k = record {
    engine_manager = k.engine_manager ∙ h.engine_manager;
    env = k.env ∙ h.env;
    has_event_bus = k.has_event_bus ∙ h.has_event_bus;
    has_cache_repo = k.has_cache_repo ∙ h.has_cache_repo;
  }

  -- How a publication of the messages ends: all of them in their order, or, the context being
  -- canceled, the ones in front and not all.
  abbrev pub Publishes : List Sent → Subscriber → Outcome × Subscriber → Type 0
  Publishes ms s (Outcome.done, s') = s'.bus ≡ s.bus ++ ms
  Publishes ms s (Outcome.ctx_canceled, s') =
      (front : List Sent) × (m : Sent) × (back : List Sent) × (ms ≡ front ++ m ∷ back)
      × (s'.bus ≡ s.bus ++ front)
  Publishes ms s (Outcome.bad_payload, s') = ⊥

  pub called-Alike : (s : Subscriber) → Alike s (called s)
  called-Alike s = record {
    engine_manager = refl;
    env = refl;
    has_event_bus = refl;
    has_cache_repo = refl;
  }

  pub same-Alike : (s : Subscriber) → Alike s s
  same-Alike s = record {
    engine_manager = refl;
    env = refl;
    has_event_bus = refl;
    has_cache_repo = refl;
  }

  sent-Alike : (s : Subscriber) (bus : List Sent) → Alike s (record (called s) { bus = bus })
  sent-Alike s bus = record {
    engine_manager = refl;
    env = refl;
    has_event_bus = refl;
    has_cache_repo = refl;
  }

  -- Whether or not the attempts fail, the loop ends at the first that does not.
  abbrev pub Ends : Option (Outcome × Subscriber) → List Sent → Subscriber → Type 0
  Ends o ms s = (r : Outcome × Subscriber) × (o ≡ some r) × Alike s r.1 × Publishes ms s r

  -- The first attempt, and the rest of the loop if it simply fails.
  publish_retry-first :
      (fuel : ℕ) (m : Sent) (s : Subscriber)
      → (s.env.publish s.calls ≡ failed
          → Ends (publish_retry fuel m (called s)) (m ∷ []) (called s))
      → Ends (publish_retry (suc fuel) m s) (m ∷ []) s
  unfolding publish_retry
  publish_retry-first fuel m s later = elim (Attempt-cases (s.env.publish s.calls)) [
    | inl e ↦ (
      (done, record (called s) { bus = s.bus ++ m ∷ [] }),
      rw (e, publish_retry) refl,
      sent-Alike s _,
      refl,
    )
    | inr (inl e) ↦ (
      (ctx_canceled, called s),
      rw (e, publish_retry) refl,
      called-Alike s,
      ([], m, [], refl, sym (append-nil s.bus)),
    )
    | inr (inr e) ↦
        let (r, returns, alike, sent) = later e in
        (
          r,
          rw (e, publish_retry) returns,
          Alike-trans s (called s) r.1 (called-Alike s) alike,
          sent,
        )
  ]

  publish_retry-Publishes :
      (fuel k : ℕ) (m : Sent) (s : Subscriber)
      → k < fuel
      → s.env.publish (s.calls + k) ≢ failed
      → Ends (publish_retry fuel m s) (m ∷ []) s
  publish_retry-Publishes zero k m s lt ends = absurd (omega arith)
  publish_retry-Publishes (suc fuel) zero m s lt ends =
      publish_retry-first fuel m s (λ e. absurd (ends (ap s.env.publish (omega arith) ∙ e)))
  publish_retry-Publishes (suc fuel) (suc k) m s lt ends = publish_retry-first fuel m s λ e.
      publish_retry-Publishes fuel k m (called s) (omega arith)
        λ h. ends (ap s.env.publish (omega arith) ∙ h)

  pub publish_retry-Ends :
      (fuel : ℕ) (m : Sent) (s : Subscriber)
      → Patient fuel s.env
      → Ends (publish_retry fuel m s) (m ∷ []) s
  publish_retry-Ends fuel m s patient =
      let (k, lt, ends) = patient s.calls in publish_retry-Publishes fuel k m s lt ends

  then_step-Ends :
      (ms ms' : List Sent) (s : Subscriber) (o : Option (Outcome × Subscriber)) (k : Step)
      → Ends o ms s
      → ((s1 : Subscriber) → Alike s s1 → Ends (k s1) ms' s1)
      → Ends (then_step o k) (ms ++ ms') s
  then_step-Ends ms ms' s o k (r, returns, alike, sent) next =
      subst (λ o. Ends (then_step o k) (ms ++ ms') s) (sym returns) (go r alike sent)
    where
      after :
          (s1 : Subscriber) (r : Outcome × Subscriber)
          → s1.bus ≡ s.bus ++ ms
          → Publishes ms' s1 r
          → Publishes (ms ++ ms') s r
      after s1 (Outcome.done, s2) first sent =
          sent ∙ ap (λ bus. bus ++ ms') first ∙ append_assoc s.bus ms ms'
      after s1 (Outcome.ctx_canceled, s2) first (front, m, back, split, sent) = (
        ms ++ front,
        m,
        back,
        ap (λ xs. ms ++ xs) split ∙ sym (append_assoc ms front (m ∷ back)),
        sent ∙ ap (λ bus. bus ++ front) first ∙ append_assoc s.bus ms front,
      )
      after s1 (Outcome.bad_payload, s2) first sent = sent

      go :
          (r : Outcome × Subscriber)
          → Alike s r.1
          → Publishes ms s r
          → Ends (then_step (some r) k) (ms ++ ms') s
      go (Outcome.done, s1) alike sent =
          let (r2, returns2, alike2, sent2) = next s1 alike in
          (r2, returns2, Alike-trans s s1 r2.1 alike alike2, after s1 r2 sent sent2)
      go (Outcome.ctx_canceled, s1) alike (front, m, back, split, sent) = (
        (ctx_canceled, s1),
        refl,
        alike,
        (
          front,
          m,
          back ++ ms',
          ap (λ xs. xs ++ ms') split ∙ append_assoc front (m ∷ back) ms',
          sent,
        ),
      )
      go (Outcome.bad_payload, s1) alike sent = absurd sent

  -- A loop over messages ends, where each publication does.
  pub publish_each-Ends :
      (fuel : ℕ) (ms : List Sent) (s : Subscriber)
      → Patient fuel s.env
      → Ends (publish_each fuel ms s) ms s
  unfolding publish_each
  publish_each-Ends fuel [] s patient = ((done, s), refl, same-Alike s, sym (append-nil s.bus))
  publish_each-Ends fuel (m ∷ ms) s patient =
      then_step-Ends (m ∷ []) ms s (publish_retry fuel m s) (publish_each fuel ms)
        (publish_retry-Ends fuel m s patient)
        λ s1 alike. publish_each-Ends fuel ms s1 (subst (Patient fuel) (sym alike.env) patient)

  stored-Alike :
      (o : Option ℕ) (s : Subscriber) → Alike s (store_token o s) × ((store_token o s).bus ≡ s.bus)
  stored-Alike none s = (same-Alike s, refl)
  stored-Alike (some token) s = (
    record { engine_manager = refl; env = refl; has_event_bus = refl; has_cache_repo = refl },
    refl,
  )

  -- A load of the token changes neither the bus nor anything else that the handlers read.
  pub load_token-Alike :
      (s : Subscriber) → Alike s (load_token s).1 × ((load_token s).1.bus ≡ s.bus)
  unfolding load_token
  load_token-Alike s =
      let (alike, bus) = stored-Alike (s.env.set_token s.calls) (called s) in
      (Alike-trans s (called s) (load_token s).1 (called-Alike s) alike, bus)

  Publishes-from :
      (ms : List Sent) (s s1 : Subscriber) (r : Outcome × Subscriber)
      → s1.bus ≡ s.bus
      → Publishes ms s1 r
      → Publishes ms s r
  Publishes-from ms s s1 (Outcome.done, s2) same sent = sent ∙ ap (λ bus. bus ++ ms) same
  Publishes-from ms s s1 (Outcome.ctx_canceled, s2) same (front, m, back, split, sent) =
      (front, m, back, split, sent ∙ ap (λ bus. bus ++ front) same)
  Publishes-from ms s s1 (Outcome.bad_payload, s2) same sent = sent

  -- A step that starts with a load of the token ends as the rest does.
  pub with_token-Ends :
      (ms : ℕ → List Sent) (s : Subscriber) (k : ℕ → Step)
      → ((token : ℕ) (s1 : Subscriber) → Alike s s1 → Ends (k token s1) (ms token) s1)
      → Ends (with_token k s) (ms (load_token s).0) s
  with_token-Ends ms s k next =
      let (token, s1) = load_token s in
      let (alike, bus) = load_token-Alike s in
      let (r, returns, alike2, sent) = next token s1 alike in
      (r, returns, Alike-trans s s1 r.1 alike alike2, Publishes-from (ms token) s s1 r bus sent)
