-- ===== src/Api/WebSocket/Feed.antt =====
-- What one step of the hub gives a client.
use mathlib.Core.List.{append-nil, append_assoc}
use cyptocurrency_exchange_b.Prelude.{
  length-append, suc, ◌≤◌, ◌+◌, ◌≡◌, refl, ap, sym, subst, ◌∙◌, Bool, true, false, Option, none,
  some, List, [], ◌∷◌, ◌++◌, All, length, ltb, if◌then◌else◌, arith,
}
use cyptocurrency_exchange_b.Decimal.{DecimalLib}
use cyptocurrency_exchange_b.Api.WebSocket.{
  and_then, send_capacity, Payload, Channel, Client, remove_client, unregister_client, pump_queue,
  ping, close, try_send, keep_or_remove, deliver, deliver_all, pump,
}

module _ ⦃lib : DecimalLib⦄ where
  -- A registered client has an open channel and nothing left to be given; the channel of any other
  -- is closed.
  abbrev pub IsCurrent : Bool → List Payload → Bool → Type 0
  IsCurrent true after closed = (after ≡ []) × (closed ≡ false)
  IsCurrent false after closed = closed ≡ true

  -- What was written to the client and what waits in its channel is a part of the log without gaps.
  pub record Follows (log : List Payload) (c : Client) : Type 0 where
    pub before : List Payload
    pub after : List Payload
    pub whole : before ++ (c.written ++ c.send.queue) ++ after ≡ log
    pub current : IsCurrent c.registered after c.send.closed
    pub room : length c.send.queue ≤ send_capacity

  -- A step of a client that ends, with what holds after it.
  abbrev pub Ends : {A : Type 0} → Option A → (A → Type 0) → Type 0
  Ends none P = ⊥
  Ends (some x) P = P x

  longer :
      (before written queue log : List Payload) (p : Payload)
      → before ++ (written ++ queue) ++ [] ≡ log
      → before ++ (written ++ (queue ++ p ∷ [])) ++ [] ≡ log ++ p ∷ []
  longer before written queue log p whole =
      append-nil _
      ∙ ap (λ xs. before ++ xs) (sym (append_assoc written queue (p ∷ [])))
      ∙ sym (append_assoc before (written ++ queue) (p ∷ []))
      ∙ ap (λ xs. xs ++ p ∷ []) (sym (append-nil _) ∙ whole)

  -- A client that is not given the next message is no longer registered.
  passed :
      (before written queue after log : List Payload) (p : Payload)
      → before ++ (written ++ queue) ++ after ≡ log
      → before ++ (written ++ queue) ++ (after ++ p ∷ []) ≡ log ++ p ∷ []
  passed before written queue after log p whole =
      sym (append_assoc (before ++ (written ++ queue)) after (p ∷ []))
      ∙ ap (λ xs. xs ++ p ∷ []) whole

  if-Ends :
      {A : Type 0} (b : Bool) (x y : Option A) (P : A → Type 0)
      → (b ≡ true → Ends x P)
      → (b ≡ false → Ends y P)
      → Ends (if b then x else y) P
  if-Ends true x y P kept other = kept refl
  if-Ends false x y P kept other = other refl

  pub and_then-Ends :
      {A B : Type 0} (m : Option A) (next : A → Option B) (P : A → Type 0) (Q : B → Type 0)
      → Ends m P
      → ((x : A) → P x → Ends (next x) Q)
      → Ends (and_then m next) Q
  and_then-Ends (some x) next P Q h k = k x h
  and_then-Ends none next P Q h k = absurd h

  true_or_not : {A : Type 0} {b : Bool} → b ≡ true → b ≡ false → A
  true_or_not is isnt = absurd (cc)

  remove_client-Ends :
      (c : Client) (Q : Client → Type 0)
      → c.send.closed ≡ false
      → Q (record c { send = record c.send { closed = true }; registered = false })
      → Ends (remove_client c) Q
  remove_client-Ends c Q opened h =
      and_then-Ends (close c.send) (λ ch. some (record c { send = ch; registered = false }))
        (λ ch. ch ≡ record c.send { closed = true }) Q
        (if-Ends c.send.closed _ _ _ (λ shut. true_or_not shut opened) (λ _. refl))
        (λ ch e. subst (λ (x : Channel). Q (record c { send = x; registered = false })) (sym e) h)

  -- What `Follows` asks of a client that got the message, and of one that did not.
  got :
      (p : Payload) (log : List Payload) (c : Client) (f : Follows log c)
      → f.after ≡ []
      → c.send.closed ≡ false
      → c.registered ≡ true
      → ltb (length c.send.queue) send_capacity ≡ true
      → Follows
          (log ++ p ∷ [])
          (record c { send = record c.send { queue = c.send.queue ++ p ∷ [] } })
  got p log c f none_left opened here fits = record {
    before = f.before;
    after = [];
    whole =
        longer f.before c.written c.send.queue log p
          (ap (λ xs. f.before ++ (c.written ++ c.send.queue) ++ xs) (sym none_left) ∙ f.whole);
    current = subst (λ r. IsCurrent r [] c.send.closed) (sym here) (refl, opened);
    room =
        let short : length c.send.queue + 1 ≤ send_capacity = ground arith in
        let sum = length-append c.send.queue (p ∷ []) in
        subst (λ n. n ≤ send_capacity) (sym sum) short;
  }

  missed :
      (p : Payload) (log : List Payload) (c : Client) (f : Follows log c) (after : List Payload)
      → Follows
          (log ++ p ∷ [])
          (record c { send = record c.send { closed = true }; registered = false })
  missed p log c f after = record {
    before = f.before;
    after = f.after ++ p ∷ [];
    whole = passed f.before c.written c.send.queue f.after log p f.whole;
    current = refl;
    room = f.room;
  }

  given :
      (p : Payload) (log : List Payload) (c : Client) (f : Follows log c)
      → f.after ≡ []
      → c.send.closed ≡ false
      → c.registered ≡ true
      → Ends
          (and_then (try_send send_capacity p c.send) (keep_or_remove c))
          (Follows (log ++ p ∷ []))
  given p log c f none_left opened here =
      let After = Follows (log ++ p ∷ []) in
      and_then-Ends (try_send send_capacity p c.send) (keep_or_remove c)
        (λ r. Ends (keep_or_remove c r) After) After
        (if-Ends c.send.closed _ _ _ (λ shut. true_or_not shut opened)
          (λ _.
            if-Ends (ltb (length c.send.queue) send_capacity) _ _ _
              (got p log c f none_left opened here)
              (λ _. remove_client-Ends c After opened (missed p log c f []))))
        (λ r h. h)

  deliver-Follows :
      (p : Payload) (log : List Payload) (c : Client)
      → Follows log c
      → Ends (deliver p c) (Follows (log ++ p ∷ []))
  deliver-Follows p log c f =
      if-Ends c.registered _ _ _
        (λ here.
          let (none_left, opened) = subst (λ r. IsCurrent r f.after c.send.closed) here f.current in
          given p log c f none_left opened here)
        (λ gone. record {
          before = f.before;
          after = f.after ++ p ∷ [];
          whole = passed f.before c.written c.send.queue f.after log p f.whole;
          current =
              subst (λ r. IsCurrent r (f.after ++ p ∷ []) c.send.closed) (sym gone)
                (subst (λ r. IsCurrent r f.after c.send.closed) gone f.current);
          room = f.room;
        })

  pub deliver_all-Follows :
      (p : Payload) (log : List Payload) (clients : List Client)
      → All (Follows log) clients
      → Ends (deliver_all p clients) (All (Follows (log ++ p ∷ [])))
  unfolding deliver_all
  deliver_all-Follows p log [] h = tt
  deliver_all-Follows p log (c ∷ clients) h =
      let Now = Follows (log ++ p ∷ []) in
      and_then-Ends (deliver p c) _ Now (All Now) (deliver-Follows p log c h.0) (λ c' f.
        and_then-Ends (deliver_all p clients) _ (All Now) (All Now)
          (deliver_all-Follows p log clients h.1) (λ rest fs. (f, fs)))

  pub unregister_client-Follows :
      (log : List Payload) (c : Client) → Follows log c → Ends (unregister_client c) (Follows log)
  unregister_client-Follows log c f =
      if-Ends c.registered _ _ _
        (λ here.
          let (_, opened) = subst (λ r. IsCurrent r f.after c.send.closed) here f.current in
          remove_client-Ends c (Follows log) opened (record {
            before = f.before;
            after = f.after;
            whole = f.whole;
            current = refl;
            room = f.room;
          }))
        (λ _. f)

  pub if_all :
      {A : Type 0} (b : Bool) (x y : A) (P : A → Type 0) → P x → P y → P (if b then x else y)
  if_all true x y P hx hy = hx
  if_all false x y P hx hy = hy

  pump_queue-Follows :
      (fails : Bool) (log : List Payload) (c : Client) (f : Follows log c) (queue : List Payload)
      → c.send.queue ≡ queue
      → Follows log (pump_queue fails c queue)
  pump_queue-Follows fails log c f [] waits =
      if_all c.send.closed (record c { pumping = false; said_close = true }) c (Follows log)
        (record {
          before = f.before;
          after = f.after;
          whole = f.whole;
          current = f.current;
          room = f.room;
        })
        f
  pump_queue-Follows fails log c f (p ∷ queue) waits = record {
    before = f.before;
    after = f.after;
    whole =
        ap (λ xs. f.before ++ xs ++ f.after)
          (append_assoc c.written (p ∷ []) queue ∙ ap (λ xs. c.written ++ xs) (sym waits))
        ∙ f.whole;
    current = f.current;
    room =
        let full : suc (length queue) ≤ send_capacity =
          subst (λ xs. length xs ≤ send_capacity) waits f.room in
        omega arith;
  }

  pub pump-Follows :
      (fails : Bool) (log : List Payload) (c : Client)
      → Follows log c
      → Ends (pump fails c) (Follows log)
  pump-Follows fails log c f =
      if_all c.pumping (pump_queue fails c c.send.queue) c (Follows log)
        (pump_queue-Follows fails log c f c.send.queue refl) f

  pub ping-Follows :
      (fails : Bool) (log : List Payload) (c : Client)
      → Follows log c
      → Ends (ping fails c) (Follows log)
  ping-Follows fails log c f = record {
    before = f.before;
    after = f.after;
    whole = f.whole;
    current = f.current;
    room = f.room;
  }
