-- ===== src/Api/WebSocket/Reached.antt =====
-- The hub after any steps of its clients and of its loop.
use mathlib.Core.List.{append-nil}
use cyptocurrency_exchange_b.Prelude.{
  ℕ, zero, suc, String, ◌≡◌, refl, sym, subst, ◌∙◌, arith, Bool, Option, some, List, [], ◌∷◌, ◌++◌,
  All, All-append, length, ltb,
}
use cyptocurrency_exchange_b.Decimal.{DecimalLib}
use cyptocurrency_exchange_b.Api.WebSocket.{
  and_then, broadcast_capacity, Payload, OutboundMessage, Client, WebSocketHandler, with_clients,
  new_web_socket_handler, new_client, broadcast_message, handle_ws, unregister_client, deliver_all,
  broadcast_first, run_broadcast, update_client, run_unregister, pump, write_pump, ping, write_ping,
}
use cyptocurrency_exchange_b.Api.WebSocket.Feed.{
  Follows, Ends, if_all, and_then-Ends, deliver_all-Follows, unregister_client-Follows,
  pump-Follows, ping-Follows,
}

module _ ⦃lib : DecimalLib⦄ where
  abbrev pub taken : List OutboundMessage → List Payload
  taken [] = []
  taken (m ∷ rest) = m.payload ∷ []

  -- The hub, with the messages that its loop has taken so far. Any number of clients connect and
  -- unregister, messages are announced at any time, and connections fail.
  pub data Reachable : List Payload → WebSocketHandler → Type 0 where
    start : Reachable [] new_web_socket_handler
    announces :
        {log : List Payload} {h : WebSocketHandler} (p : Payload) (message_type : String)
        → Reachable log h
        → Reachable log (broadcast_message p message_type h)
    connects :
        {log : List Payload} {h : WebSocketHandler} → Reachable log h → Reachable log (handle_ws h)
    delivers :
        {log : List Payload} {h : WebSocketHandler} (h' : WebSocketHandler)
        → Reachable log h
        → run_broadcast h ≡ some h'
        → Reachable (log ++ taken h.broadcast) h'
    unregisters :
        {log : List Payload} {h : WebSocketHandler} (n : ℕ) (h' : WebSocketHandler)
        → Reachable log h
        → run_unregister n h ≡ some h'
        → Reachable log h'
    writes :
        {log : List Payload} {h : WebSocketHandler} (n : ℕ) (fails : Bool) (h' : WebSocketHandler)
        → Reachable log h
        → write_pump n fails h ≡ some h'
        → Reachable log h'
    pings :
        {log : List Payload} {h : WebSocketHandler} (n : ℕ) (fails : Bool) (h' : WebSocketHandler)
        → Reachable log h
        → write_ping n fails h ≡ some h'
        → Reachable log h'

  abbrev pub FollowAll : List Payload → WebSocketHandler → Type 0
  FollowAll log h = All (Follows log) h.clients

  update_client-All :
      (P : Client → Type 0) (n : ℕ) (f : Client → Option Client)
      → ((c : Client) → P c → Ends (f c) P)
      → (clients : List Client) → All P clients
      → Ends (update_client n f clients) (All P)
  unfolding update_client
  update_client-All P n f step [] h = tt
  update_client-All P zero f step (c ∷ clients) h =
      and_then-Ends (f c) _ P (All P) (step c h.0) (λ c' hc. (hc, h.1))
  update_client-All P (suc n) f step (c ∷ clients) h =
      and_then-Ends (update_client n f clients) _ (All P) (All P)
        (update_client-All P n f step clients h.1) (λ rest hs. (h.0, hs))

  updated-FollowAll :
      (log : List Payload) (n : ℕ) (f : Client → Option Client) (h : WebSocketHandler)
      → ((c : Client) → Follows log c → Ends (f c) (Follows log))
      → FollowAll log h
      → Ends
          (and_then (update_client n f h.clients) (λ clients. some (with_clients h clients)))
          (FollowAll log)
  updated-FollowAll log n f h step all =
      and_then-Ends (update_client n f h.clients) _ (All (Follows log)) (FollowAll log)
        (update_client-All (Follows log) n f step h.clients all) (λ clients hs. hs)

  broadcast_first-FollowAll :
      (log : List Payload) (ms : List OutboundMessage) (h : WebSocketHandler)
      → FollowAll log h
      → Ends (broadcast_first ms h) (FollowAll (log ++ taken ms))
  broadcast_first-FollowAll log [] h all = subst (λ xs. FollowAll xs h) (sym (append-nil log)) all
  broadcast_first-FollowAll log (m ∷ rest) h all =
      and_then-Ends (deliver_all m.payload h.clients) _ (All (Follows (log ++ m.payload ∷ [])))
        (FollowAll (log ++ m.payload ∷ [])) (deliver_all-Follows m.payload log h.clients all)
        (λ clients hs. hs)

  run_broadcast-FollowAll :
      (log : List Payload) (h : WebSocketHandler)
      → FollowAll log h
      → Ends (run_broadcast h) (FollowAll (log ++ taken h.broadcast))
  unfolding run_broadcast
  run_broadcast-FollowAll log h all = broadcast_first-FollowAll log h.broadcast h all

  run_unregister-FollowAll :
      (log : List Payload) (n : ℕ) (h : WebSocketHandler)
      → FollowAll log h
      → Ends (run_unregister n h) (FollowAll log)
  unfolding run_unregister
  run_unregister-FollowAll log n h all =
      updated-FollowAll log n unregister_client h (unregister_client-Follows log) all

  write_pump-FollowAll :
      (log : List Payload) (n : ℕ) (fails : Bool) (h : WebSocketHandler)
      → FollowAll log h
      → Ends (write_pump n fails h) (FollowAll log)
  unfolding write_pump
  write_pump-FollowAll log n fails h all =
      updated-FollowAll log n (pump fails) h (pump-Follows fails log) all

  write_ping-FollowAll :
      (log : List Payload) (n : ℕ) (fails : Bool) (h : WebSocketHandler)
      → FollowAll log h
      → Ends (write_ping n fails h) (FollowAll log)
  unfolding write_ping
  write_ping-FollowAll log n fails h all =
      updated-FollowAll log n (ping fails) h (ping-Follows fails log) all

  broadcast_message-FollowAll :
      (log : List Payload) (p : Payload) (message_type : String) (h : WebSocketHandler)
      → FollowAll log h
      → FollowAll log (broadcast_message p message_type h)
  unfolding broadcast_message
  broadcast_message-FollowAll log p message_type h all =
      if_all (ltb (length h.broadcast) broadcast_capacity) _ h (FollowAll log) all all

  handle_ws-FollowAll :
      (log : List Payload) (h : WebSocketHandler) → FollowAll log h → FollowAll log (handle_ws h)
  unfolding handle_ws
  handle_ws-FollowAll log h all = All-append (Follows log) h.clients (new_client ∷ []) all (
    record {
      before = log;
      after = [];
      whole = append-nil _ ∙ append-nil log;
      current = (refl, refl);
      room = omega arith;
    },
    tt,
  )

  ended : {A : Type 0} {x : A} {m : Option A} (P : A → Type 0) → Ends m P → m ≡ some x → P x
  ended P h e = subst (λ o. Ends o P) e h

  Reachable-FollowAll :
      {log : List Payload} {h : WebSocketHandler} → Reachable log h → FollowAll log h
  Reachable-FollowAll start = tt
  Reachable-FollowAll (announces {log = log} {h = h} p message_type r) =
      broadcast_message-FollowAll log p message_type h (Reachable-FollowAll r)
  Reachable-FollowAll (connects {log = log} {h = h} r) =
      handle_ws-FollowAll log h (Reachable-FollowAll r)
  Reachable-FollowAll (delivers {log = log} {h = h} h' r e) =
      ended _ (run_broadcast-FollowAll log h (Reachable-FollowAll r)) e
  Reachable-FollowAll (unregisters {log = log} {h = h} n h' r e) =
      ended _ (run_unregister-FollowAll log n h (Reachable-FollowAll r)) e
  Reachable-FollowAll (writes {log = log} {h = h} n fails h' r e) =
      ended _ (write_pump-FollowAll log n fails h (Reachable-FollowAll r)) e
  Reachable-FollowAll (pings {log = log} {h = h} n fails h' r e) =
      ended _ (write_ping-FollowAll log n fails h (Reachable-FollowAll r)) e

  -- After any steps of the hub, what each client was given to write and what waits in its channel is
  -- a part without gaps of the messages that the loop took, and its last part while the client is
  -- registered; at most 256 messages wait. A slow client is removed, and never skips a message. The
  -- loop's next step, for a message or for a client that unregisters, neither sends on a closed
  -- channel nor closes one again, and leaves this true.
  pub Reachable-Follows :
      {log : List Payload} {h : WebSocketHandler}
      → Reachable log h
      → All (Follows log) h.clients
        × Ends (run_broadcast h) (λ h'. All (Follows (log ++ taken h.broadcast)) h'.clients)
        × ((n : ℕ) → Ends (run_unregister n h) (λ h'. All (Follows log) h'.clients))
  Reachable-Follows {log} {h} r =
      let all = Reachable-FollowAll r in
      (all, run_broadcast-FollowAll log h all, λ n. run_unregister-FollowAll log n h all)
