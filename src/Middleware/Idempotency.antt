-- ===== src/Middleware/Idempotency.antt =====
-- internal/middleware/idempotency.go: answers by the request's Idempotency-Key. A time is a number,
-- and a body the list of its bytes.
pub mod Entries
pub mod Recorder
pub mod Replay
use cyptocurrency_exchange_b.Prelude.{
  ℕ, ◌+◌, ◌<◌, ◌≡◌, String, Bool, true, false, ◌&&◌, Option, none, some, List, [], ◌∷◌, ◌++◌,
  length, ltb, str_eq, ◌==◌, if◌then◌else◌,
}

pub record Entry : Type 0 where
  pub status_code : ℕ
  pub body : List ℕ
  pub expires_at : ℕ

abbrev pub Store : Type 0
Store = List (String × Entry)

unfoldable pub find_entry : String → Store → Option Entry
find_entry key [] = none
find_entry key ((k, e) ∷ entries) = if str_eq k key then some e else find_entry key entries

-- `now.After(entry.ExpiresAt)`
abbrev pub has_expired : ℕ → Entry → Bool
has_expired at e = ltb e.expires_at at

abbrev pub unless_expired : ℕ → Option Entry → Option Entry
unless_expired at none = none
unless_expired at (some e) = if has_expired at e then none else some e

unfoldable pub get : ℕ → String → Store → Option Entry
unfolding find_entry
get at key store = unless_expired at (find_entry key store)

unfoldable pub put_entry : String → Entry → Store → Store
put_entry key e [] = (key, e) ∷ []
put_entry key e ((k, old) ∷ entries) =
    let rest = put_entry key e entries in
    if str_eq k key then (key, e) ∷ entries else (k, old) ∷ rest

unfoldable pub set : ℕ → String → ℕ → List ℕ → ℕ → Store → Store
unfolding put_entry
set at key status_code body ttl store =
    put_entry key (record { status_code = status_code; body = body; expires_at = at + ttl }) store

-- one turn of the cleanup loop
unfoldable pub clean : ℕ → Store → Store
clean at [] = []
clean at ((k, e) ∷ entries) =
    let rest = clean at entries in if has_expired at e then rest else (k, e) ∷ rest

-- gin's ResponseWriter, a package that the source calls: the answer that goes to the client, which
-- headers and bytes are written to. A header sent to a fresh answer is its status; bytes are appended.
pub record ResponseWriter : Type 1 where
  pub Writer : Type 0
  pub fresh : Writer
  pub send_header : ℕ → Writer → Writer
  pub send : List ℕ → Writer → Writer
  pub status : Writer → ℕ
  pub body : Writer → List ℕ
  pub body-fresh : body fresh ≡ []
  pub body-send_header : (code : ℕ) (w : Writer) → body (send_header code w) ≡ body w
  pub body-send : (bytes : List ℕ) (w : Writer) → body (send bytes w) ≡ body w ++ bytes
  pub status-send_header : (code : ℕ) → 0 < code → status (send_header code fresh) ≡ code
  pub status-send : (bytes : List ℕ) (w : Writer) → status (send bytes w) ≡ status w

-- What a handler does with the writer.
pub data WriterCall : Type 0 where
  write_header : ℕ → WriterCall
  write : List ℕ → WriterCall

abbrev pub status_ok : ℕ
status_ok = 200

module _ ⦃gin : ResponseWriter⦄ where
  pub record BodyLogWriter : Type 0 where
    pub response_writer : gin.Writer
    pub status_code : ℕ
    pub body : List ℕ

  abbrev pub log_call : WriterCall → BodyLogWriter → BodyLogWriter
  log_call (write_header code) w = record w {
    status_code = code;
    response_writer = gin.send_header code w.response_writer;
  }
  log_call (write bytes) w = record w {
    status_code = if w.status_code == 0 then status_ok else w.status_code;
    body = w.body ++ bytes;
    response_writer = gin.send bytes w.response_writer;
  }

  unfoldable pub log_calls : List WriterCall → BodyLogWriter → BodyLogWriter
  log_calls [] w = w
  log_calls (call ∷ calls) w = log_calls calls (log_call call w)

  -- calls that nothing records
  abbrev pub plain_call : WriterCall → gin.Writer → gin.Writer
  plain_call (write_header code) w = gin.send_header code w
  plain_call (write bytes) w = gin.send bytes w

  unfoldable pub plain_calls : List WriterCall → gin.Writer → gin.Writer
  plain_calls [] w = w
  plain_calls (call ∷ calls) w = plain_calls calls (plain_call call w)

  -- What the client gets, the store, and the state behind the handler.
  pub record Served (S : Type 0) : Type 0 where
    pub response : gin.Writer
    pub store : Store
    pub state : S

  abbrev pub keep_response : ℕ → String → ℕ → Store → BodyLogWriter → Store
  keep_response at key ttl store w =
      if ltb w.status_code 400 && ltb 0 (length w.body)
      then set at key w.status_code w.body ttl store
      else store

  abbrev pub logged : List WriterCall → BodyLogWriter
  logged calls =
      log_calls calls (record { response_writer = gin.fresh; status_code = 0; body = [] })

  module _ {S : Type 0} (handler : S → List WriterCall × S) where
    abbrev pub run_handler : ℕ → String → ℕ → Store → S → Served S
    run_handler at key ttl store s =
        let (calls, s') = handler s in
        record {
          response = (logged calls).response_writer;
          store = keep_response at key ttl store (logged calls);
          state = s';
        }

    abbrev pub pass : Store → S → Served S
    pass store s =
        let (calls, s') = handler s in
        record { response = plain_calls calls gin.fresh; store = store; state = s' }

    -- `c.Data` writes the status and then the body
    abbrev pub answer : Option Entry → ℕ → String → ℕ → Store → S → Served S
    answer (some e) at key ttl store s = record {
      response = gin.send e.body (gin.send_header e.status_code gin.fresh);
      store = store;
      state = s;
    }
    answer none at key ttl store s = run_handler at key ttl store s

    -- the clock is read for the lookup, and again after the handler
    unfoldable pub idempotency_middleware : ℕ → String → ℕ → ℕ → Store → S → Served S
    unfolding get set log_calls plain_calls
    idempotency_middleware ttl key arrives answers store s =
        if str_eq key ""
        then pass store s
        else answer (get arrives key store) answers key ttl store s
