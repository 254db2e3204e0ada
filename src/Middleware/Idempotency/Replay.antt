-- ===== src/Middleware/Idempotency/Replay.antt =====
-- A request that is sent again under its key.
use cyptocurrency_exchange_b.Prelude.{
  ℕ, ◌+◌, ◌<◌, ◌++◌, ◌≤◌, String, ◌≡◌, refl, ap, sym, subst, ◌∙◌, Bool, true, false, ◌&&◌, Option,
  none, some, List, length, ltb, str_eq, eq_iff, if◌then◌else◌, arith,
}
use cyptocurrency_exchange_b.Middleware.Idempotency.{
  Entry, Store, ResponseWriter, WriterCall, BodyLogWriter, find_entry, has_expired, unless_expired,
  get, set, clean, Served, keep_response, logged, answer, run_handler, pass, idempotency_middleware,
}
use cyptocurrency_exchange_b.Middleware.Idempotency.Entries.{find_entry-put_entry, find_entry-clean}
use cyptocurrency_exchange_b.Middleware.Idempotency.Recorder.{
  AnswersOnce, HasRecorded, logged-HasRecorded,
}

module _ ⦃gin : ResponseWriter⦄ (S : Type 0) (ttl : ℕ) where
  -- What may come between the two requests: requests under other keys, and turns of the cleanup loop
  -- up to the time when the entry expires.
  pub data Later (key : String) (expires_at : ℕ) (store : Store) : Store → Type 0 where
    none_yet : Later key expires_at store store
    other_request :
        {store' : Store} (other : String) (handler : S → List WriterCall × S) (arrives answers : ℕ)
        (s : S)
        → Later key expires_at store store'
        → str_eq other key ≡ false
        → Later key expires_at store
            (idempotency_middleware handler ttl other arrives answers store' s).store
    cleanup :
        {store' : Store} (at : ℕ)
        → Later key expires_at store store'
        → at ≤ expires_at
        → Later key expires_at store (clean at store')

  other_request-find :
      (handler : S → List WriterCall × S) (other key : String) (arrives answers : ℕ) (store : Store)
      (s : S)
      → str_eq other key ≡ false
      → find_entry key (idempotency_middleware handler ttl other arrives answers store s).store
        ≡ find_entry key store
  unfolding idempotency_middleware set
  other_request-find handler other key arrives answers store s apart =
      chosen (str_eq other "") (get arrives other store)
    where
      kept :
          (b : Bool) (w : BodyLogWriter)
          → find_entry key (if b then set answers other w.status_code w.body ttl store else store)
            ≡ find_entry key store
      kept true w =
          find_entry-put_entry other key _ store
          ∙ ap
              (λ b.
                if b
                then some (record {
                  status_code = w.status_code;
                  body = w.body;
                  expires_at = answers + ttl;
                })
                else find_entry key store)
              apart
      kept false w = refl

      chosen :
          (b : Bool) (o : Option Entry)
          → find_entry key
              (if b then pass handler store s else answer handler o answers other ttl store s).store
            ≡ find_entry key store
      chosen true o = refl
      chosen false (some e) = refl
      chosen false none = kept _ (logged (handler s).0)

  Later-find :
      (key : String) (e : Entry) {store store' : Store}
      → Later key e.expires_at store store'
      → find_entry key store ≡ some e
      → find_entry key store' ≡ some e
  Later-find key e none_yet found = found
  Later-find key e (other_request {store' = store'} other handler arrives answers s r apart) found =
      other_request-find handler other key arrives answers store' s apart ∙ Later-find key e r found
  Later-find key e (cleanup {store' = store'} at r in_time) found =
      find_entry-clean at key e store' (ground arith) (Later-find key e r found)

  -- A request under a key, by what the lookup finds.
  by_lookup :
      (handler : S → List WriterCall × S) (key : String) (arrives answers : ℕ) (store : Store)
      (s : S) (o : Option Entry)
      → str_eq key "" ≡ false
      → get arrives key store ≡ o
      → idempotency_middleware handler ttl key arrives answers store s
        ≡ answer handler o answers key ttl store s
  unfolding idempotency_middleware
  by_lookup handler key arrives answers store s o named looked_up =
      ap
        (λ b.
          if b
          then pass handler store s
          else answer handler (get arrives key store) answers key ttl store s)
        named
      ∙ ap (λ o. answer handler o answers key ttl store s) looked_up

  by_entry :
      (handler : S → List WriterCall × S) (key : String) (arrives answers : ℕ) (store : Store)
      (s : S) {e : Entry}
      → str_eq key "" ≡ false
      → get arrives key store ≡ some e
      → idempotency_middleware handler ttl key arrives answers store s
        ≡ answer handler (some e) answers key ttl store s
  by_entry handler key arrives answers store s {e} named found =
      by_lookup handler key arrives answers store s (some e) named found

  kept_entry :
      (at : ℕ) (key : String) (store : Store) (w : BodyLogWriter)
      → (ltb w.status_code 400 && ltb 0 (length w.body)) ≡ true
      → find_entry key (keep_response at key ttl store w)
        ≡ some (record { status_code = w.status_code; body = w.body; expires_at = at + ttl })
  unfolding set
  kept_entry at key store w worth =
      let e : Entry = record {
        status_code = w.status_code;
        body = w.body;
        expires_at = at + ttl;
      } in
      let same : str_eq key key ≡ true = ground (arith, eq_iff key key) in
      ap (λ b. find_entry key (if b then set at key w.status_code w.body ttl store else store))
        worth
      ∙ find_entry-put_entry key key e store
      ∙ ap (λ b. if b then some e else find_entry key store) same

  get_entry :
      (at : ℕ) (key : String) (store : Store) (e : Entry)
      → has_expired at e ≡ false
      → find_entry key store ≡ some e
      → get at key store ≡ some e
  unfolding get
  get_entry at key store e fresh found =
      ap (unless_expired at) found ∙ ap (λ (b : Bool). if b then none else some e) fresh

  -- The client gets the status and the body again, and neither the store nor the state has changed.
  pub record Replays (first : gin.Writer) (store : Store) (s : S) (second : Served S) : Type 0 where
    pub status : gin.status second.response ≡ gin.status first
    pub body : gin.body second.response ≡ gin.body first
    pub store_lem : second.store ≡ store
    pub state : second.state ≡ s

  entry-Replays :
      (w : BodyLogWriter) (expires_at : ℕ) (store : Store) (s : S) (second : Served S)
      → HasRecorded w
      → second ≡ record {
        response = gin.send w.body (gin.send_header w.status_code gin.fresh);
        store = store;
        state = s;
      }
      → Replays w.response_writer store s second
  entry-Replays w expires_at store s second h e =
      let set_lem = h.set_lem in
      let positive : 0 < w.status_code = ground arith in
      record {
        status =
            ap (λ (x : Served S). gin.status x.response) e
            ∙ gin.status-send w.body (gin.send_header w.status_code gin.fresh)
            ∙ gin.status-send_header w.status_code positive
            ∙ h.status;
        body =
            ap (λ (x : Served S). gin.body x.response) e
            ∙ gin.body-send w.body (gin.send_header w.status_code gin.fresh)
            ∙ ap (λ xs. xs ++ w.body)
                (gin.body-send_header w.status_code gin.fresh ∙ gin.body-fresh)
            ∙ h.body_lem;
        store_lem = ap (λ (x : Served S). x.store) e;
        state = ap (λ (x : Served S). x.state) e;
      }

  -- If the handler answers a request under a key that is not known once, with a status and then the
  -- body, and the client gets a status below 400 and a body, then a later request under the key,
  -- until the entry expires, brings the client the same status and the same body, and the handler
  -- does not run again, whatever requests under other keys and cleanups come between.
  pub idempotency_middleware-Replays :
      (handler again : S → List WriterCall × S) (key : String) (arrives answers at later_on : ℕ)
      (store store' : Store) (s s' : S)
      → AnswersOnce (handler s).0
      → str_eq key "" ≡ false
      → get arrives key store ≡ none
      → let first = idempotency_middleware handler ttl key arrives answers store s in
        (ltb (gin.status first.response) 400 && ltb 0 (length (gin.body first.response))) ≡ true
        → Later key (answers + ttl) first.store store'
        → at ≤ answers + ttl
        → Replays first.response store' s'
            (idempotency_middleware again ttl key at later_on store' s')
  idempotency_middleware-Replays handler again key arrives answers at later_on store store' s s'
        once named unknown worth between in_time =
      subst
        (λ (x : Served S).
          Replays x.response store' s' (idempotency_middleware again ttl key at later_on store' s'))
        (sym first_is)
        (entry-Replays w (answers + ttl) store' s'
          (idempotency_middleware again ttl key at later_on store' s') recorded
          (by_entry again key at later_on store' s' named found_again))
    where
      w : BodyLogWriter
      w = logged (handler s).0

      recorded : HasRecorded w
      recorded = logged-HasRecorded (handler s).0 once

      entry : Entry
      entry = record { status_code = w.status_code; body = w.body; expires_at = answers + ttl }

      first_is :
          idempotency_middleware handler ttl key arrives answers store s
          ≡ run_handler handler answers key ttl store s
      first_is = by_lookup handler key arrives answers store s none named unknown

      worth_client :
          (ltb (gin.status w.response_writer) 400 && ltb 0 (length (gin.body w.response_writer)))
          ≡ true
      worth_client =
          subst
            (λ (x : Served S).
              (ltb (gin.status x.response) 400 && ltb 0 (length (gin.body x.response))) ≡ true)
            first_is worth

      worth_it : (ltb w.status_code 400 && ltb 0 (length w.body)) ≡ true
      worth_it =
          ap (λ (n : ℕ). ltb n 400 && ltb 0 (length w.body)) recorded.status
          ∙ ap (λ xs. ltb (gin.status w.response_writer) 400 && ltb 0 (length xs)) recorded.body_lem
          ∙ worth_client

      found : find_entry key (keep_response answers key ttl store w) ≡ some entry
      found = kept_entry answers key store w worth_it

      found_again : get at key store' ≡ some entry
      found_again = get_entry at key store' entry (ground arith) (
          Later-find key entry
            (subst (λ (x : Served S). Later key (answers + ttl) x.store store') first_is between)
            found)
