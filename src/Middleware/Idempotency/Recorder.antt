-- ===== src/Middleware/Idempotency/Recorder.antt =====
-- What the recorder of a response has, next to what went to the client.
use cyptocurrency_exchange_b.Prelude.{
  ℕ, ◌<◌, ◌++◌, map, ◌==◌, ◌≡◌, ap, sym, subst, ◌∙◌, Bool, false, List, [], ◌∷◌, if◌then◌else◌,
  arith,
}
use cyptocurrency_exchange_b.Middleware.Idempotency.{
  ResponseWriter, WriterCall, write_header, write, log_call, log_calls, BodyLogWriter, logged,
}

module _ ⦃gin : ResponseWriter⦄ where
  -- A handler that answers once: a status, and then the body in any number of writes.
  pub record AnswersOnce (calls : List WriterCall) : Type 0 where
    pub code : ℕ
    pub chunks : List (List ℕ)
    pub positive : 0 < code
    pub written : calls ≡ write_header code ∷ map write chunks

  -- The recorder has what went to the client.
  pub record HasRecorded (w : BodyLogWriter) : Type 0 where
    pub status : w.status_code ≡ gin.status w.response_writer
    pub body_lem : w.body ≡ gin.body w.response_writer
    pub set_lem : (w.status_code == 0) ≡ false

  log_calls-HasRecorded :
      (chunks : List (List ℕ)) (w : BodyLogWriter)
      → HasRecorded w
      → HasRecorded (log_calls (map write chunks) w)
  unfolding log_calls
  log_calls-HasRecorded [] w h = h
  log_calls-HasRecorded (bytes ∷ chunks) w h =
      let kept : (if w.status_code == 0 then 200 else w.status_code) ≡ w.status_code =
        ap (λ (b : Bool). if b then 200 else w.status_code) h.set_lem in
      log_calls-HasRecorded chunks (log_call (write bytes) w) (record {
        status = kept ∙ h.status ∙ sym (gin.status-send bytes w.response_writer);
        body_lem = ap (λ xs. xs ++ bytes) h.body_lem ∙ sym (gin.body-send bytes w.response_writer);
        set_lem = ap (λ (n : ℕ). n == 0) kept ∙ h.set_lem;
      })

  pub logged-HasRecorded :
      (calls : List WriterCall) → AnswersOnce calls → HasRecorded (logged calls)
  unfolding log_calls
  logged-HasRecorded calls once =
      let w0 : BodyLogWriter = record { response_writer = gin.fresh; status_code = 0; body = [] } in
      subst (λ cs. HasRecorded (logged cs)) (sym once.written)
        (log_calls-HasRecorded once.chunks (log_call (write_header once.code) w0) (record {
          status = sym (gin.status-send_header once.code once.positive);
          body_lem = sym (gin.body-send_header once.code gin.fresh ∙ gin.body-fresh);
          set_lem = let positive = once.positive in ground arith;
        }))
