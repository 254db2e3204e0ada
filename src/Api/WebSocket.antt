-- ===== src/Api/WebSocket.antt =====
-- internal/api/websocket_handler.go: the hub of the WebSocket connections. A client is known by its
-- number in the list of all that have connected, and the map `clients` is the field `registered` of
-- each. A step that panics, by a close of or a send on a closed channel, is `none`.
pub mod Feed
pub mod Reached
use cyptocurrency_exchange_b.Prelude.{
  ℕ, zero, suc, String, Bool, true, false, not, Option, none, some, List, [], ◌∷◌, ◌++◌, length,
  ltb, if◌then◌else◌,
}
use cyptocurrency_exchange_b.Decimal.{DecimalLib}
use cyptocurrency_exchange_b.Engine.Types.{Trade, OrderBookSnapshot}
use cyptocurrency_exchange_b.Domain.Models.{Order}
use cyptocurrency_exchange_b.Domain.Labels.{side_to_string, status_to_string}

abbrev pub and_then : {A B : Type 0} → Option A → (A → Option B) → Option B
and_then none next = none
and_then (some x) next = next x

abbrev pub send_capacity : ℕ
send_capacity = 256

abbrev pub broadcast_capacity : ℕ
broadcast_capacity = 256

module _ ⦃lib : DecimalLib⦄ where
  -- What the JSON text of a message encodes. A trade has the time of its sending.
  pub data Payload : Type 0 where
    depth_snapshot : OrderBookSnapshot → Payload
    trade : Trade → ℕ → Payload
    order_update : Order → String → String → Payload

  pub record OutboundMessage : Type 0 where
    pub payload : Payload
    pub message_type : String

  pub record Channel : Type 0 where
    pub queue : List Payload
    pub closed : Bool

  abbrev pub close : Channel → Option Channel
  close ch = if ch.closed then none else some (record ch { closed = true })

  -- a send in a `select` with a default: whether the channel took the value
  abbrev pub try_send : ℕ → Payload → Channel → Option (Bool × Channel)
  try_send capacity p ch =
      if ch.closed
      then none
      else if ltb (length ch.queue) capacity
      then some (true, record ch { queue = ch.queue ++ p ∷ [] })
      else some (false, ch)

  -- `written` is what the connection was given to write, and `pumping` says that writePump runs.
  pub record Client : Type 0 where
    pub send : Channel
    pub registered : Bool
    pub pumping : Bool
    pub written : List Payload
    pub said_close : Bool

  pub record WebSocketHandler : Type 0 where
    pub clients : List Client
    pub broadcast : List OutboundMessage

  abbrev pub new_web_socket_handler : WebSocketHandler
  new_web_socket_handler = record { clients = []; broadcast = [] }

  abbrev pub with_clients : WebSocketHandler → List Client → WebSocketHandler
  with_clients h clients = record h { clients = clients }

  -- `Broadcast`: a full channel takes nothing
  unfoldable pub broadcast_message : Payload → String → WebSocketHandler → WebSocketHandler
  broadcast_message p message_type h =
      if ltb (length h.broadcast) broadcast_capacity
      then record h {
        broadcast = h.broadcast ++ record { payload = p; message_type = message_type } ∷ [];
      }
      else h

  abbrev pub on_order_book_update : OrderBookSnapshot → WebSocketHandler → WebSocketHandler
  on_order_book_update snapshot = broadcast_message (depth_snapshot snapshot) "depth_snapshot"

  abbrev pub on_trade : Trade → ℕ → WebSocketHandler → WebSocketHandler
  on_trade t at = broadcast_message (trade t at) "trade"

  abbrev pub on_order_update : Order → WebSocketHandler → WebSocketHandler
  on_order_update order =
      broadcast_message
        (order_update order (side_to_string order.side) (status_to_string order.status))
        "order_update"

  abbrev pub new_client : Client
  new_client = record {
    send = record { queue = []; closed = false };
    registered = true;
    pumping = true;
    written = [];
    said_close = false;
  }

  -- `HandleWS`, with the case of `Run` that receives the client
  unfoldable pub handle_ws : WebSocketHandler → WebSocketHandler
  handle_ws h = record h { clients = h.clients ++ new_client ∷ [] }

  -- `close(client.send)` and `delete(h.clients, client)`
  abbrev pub remove_client : Client → Option Client
  remove_client c =
      and_then (close c.send) (λ ch. some (record c { send = ch; registered = false }))

  -- the case of `Run` for a client that unregisters
  abbrev pub unregister_client : Client → Option Client
  unregister_client c = if c.registered then remove_client c else some c

  abbrev pub keep_or_remove : Client → Bool × Channel → Option Client
  keep_or_remove c (true, ch) = some (record c { send = ch })
  keep_or_remove c (false, ch) = remove_client c

  abbrev pub deliver : Payload → Client → Option Client
  deliver p c =
      if c.registered then and_then (try_send send_capacity p c.send) (keep_or_remove c) else some c

  -- the loop over the map
  unfoldable pub deliver_all : Payload → List Client → Option (List Client)
  deliver_all p [] = some []
  deliver_all p (c ∷ clients) =
      and_then (deliver p c) (λ c'. and_then (deliver_all p clients) (λ rest. some (c' ∷ rest)))

  abbrev pub broadcast_first : List OutboundMessage → WebSocketHandler → Option WebSocketHandler
  broadcast_first [] h = some h
  broadcast_first (m ∷ rest) h =
      and_then (deliver_all m.payload h.clients)
        (λ clients. some (record { clients = clients; broadcast = rest }))

  -- the case of `Run` for a message
  unfoldable pub run_broadcast : WebSocketHandler → Option WebSocketHandler
  unfolding deliver_all
  run_broadcast h = broadcast_first h.broadcast h

  unfoldable pub update_client : ℕ → (Client → Option Client) → List Client → Option (List Client)
  update_client n f [] = some []
  update_client zero f (c ∷ clients) = and_then (f c) (λ c'. some (c' ∷ clients))
  update_client (suc n) f (c ∷ clients) =
      and_then (update_client n f clients) (λ rest. some (c ∷ rest))

  unfoldable pub run_unregister : ℕ → WebSocketHandler → Option WebSocketHandler
  unfolding update_client
  run_unregister n h =
      and_then (update_client n unregister_client h.clients)
        (λ clients. some (with_clients h clients))

  -- One turn of writePump on its channel, which has what the list says; `fails` says that the
  -- connection does not take the message.
  abbrev pub pump_queue : Bool → Client → List Payload → Client
  pump_queue fails c [] =
      if c.send.closed then record c { pumping = false; said_close = true } else c
  pump_queue fails c (p ∷ queue) = record c {
    send = record c.send { queue = queue };
    written = c.written ++ p ∷ [];
    pumping = not fails;
  }

  abbrev pub pump : Bool → Client → Option Client
  pump fails c = some (if c.pumping then pump_queue fails c c.send.queue else c)

  unfoldable pub write_pump : ℕ → Bool → WebSocketHandler → Option WebSocketHandler
  unfolding update_client
  write_pump n fails h =
      and_then (update_client n (pump fails) h.clients) (λ clients. some (with_clients h clients))

  -- Its turn when the ticker fires: a ping that fails ends it too.
  abbrev pub ping : Bool → Client → Option Client
  ping fails c = some (record c { pumping = if fails then false else c.pumping })

  unfoldable pub write_ping : ℕ → Bool → WebSocketHandler → Option WebSocketHandler
  unfolding update_client
  write_ping n fails h =
      and_then (update_client n (ping fails) h.clients) (λ clients. some (with_clients h clients))
