-- ===== src/Events/Queue.antt =====
-- `QueueService`, `MockedQueueService` and `get_queue_service` of
-- safe_transaction_service/events/services/queue_service.py.
use safe_transaction_service.Common.{
  Bytes, ℕ, zero, suc, ◌+◌, Bool, true, false, not, Option, none, some, List, [], ◌∷◌, ◌++◌, ℤ, pos,
  ◌+ℤ◌, ◌-ℤ◌, ltb_ℤ,
}
use safe_transaction_service.Events.Broker.{Pika, BrokerConnection, new_connection, publish}

pub record QueueService (Channel : Type 0) : Type 0 where
  pub connection_pool : List (BrokerConnection Channel)
  pub total_connections : ℤ
  pub unsent_events : List Bytes

abbrev pub new_service : {Channel : Type 0} → QueueService Channel
new_service = record { connection_pool = []; total_connections = pos 0; unsent_events = [] }

-- `list.pop()`
abbrev pub pop_last : {A : Type 0} → A → List A → A × List A
pop_last a [] = (a, [])
pop_last a (b ∷ xs) = let (last, rest) = pop_last b xs in (last, a ∷ rest)

-- `settings.EVENTS_QUEUE_POOL_CONNECTIONS_LIMIT` is reached; 0 is no limit.
abbrev pub limit_reached : ℕ → ℤ → Bool
limit_reached zero total = false
limit_reached (suc n) total = not (ltb_ℤ total (pos (suc n)))

module _ {W Channel : Type 0} (pika : Pika W Channel) (limit : ℕ) where
  abbrev pub checked_connection :
      Option Channel
      → BrokerConnection Channel
      → QueueService Channel
      → W
      → Option (BrokerConnection Channel) × QueueService Channel × W
  checked_connection none c q w = (none, q, w)
  checked_connection (some ch) c q w =
      (some c, record q { total_connections = q.total_connections +ℤ pos 1 }, w)

  abbrev pub from_pool :
      List (BrokerConnection Channel)
      → QueueService Channel
      → W
      → Option (BrokerConnection Channel) × QueueService Channel × W
  from_pool [] q w = let (c, w') = new_connection pika w in checked_connection c.channel c q w'
  from_pool (a ∷ rest) q w =
      let (c, pool) = pop_last a rest in
      checked_connection c.channel c (record q { connection_pool = pool }) w

  abbrev pub unless_reached :
      Bool → QueueService Channel → W → Option (BrokerConnection Channel) × QueueService Channel × W
  unless_reached true q w = (none, q, w)
  unless_reached false q w = from_pool q.connection_pool q w

  unfoldable pub get_connection :
      QueueService Channel → W → Option (BrokerConnection Channel) × QueueService Channel × W
  get_connection q w = unless_reached (limit_reached limit q.total_connections) q w

  abbrev pub with_connection :
      Option (BrokerConnection Channel)
      → List (BrokerConnection Channel)
      → List (BrokerConnection Channel)
  with_connection none pool = pool
  with_connection (some c) pool = c ∷ pool

  unfoldable pub release_connection :
      Option (BrokerConnection Channel) → QueueService Channel → QueueService Channel
  release_connection c q = record q {
    total_connections = q.total_connections -ℤ pos 1;
    connection_pool = with_connection c q.connection_pool;
  }

  abbrev pub store_unsent : Bytes → QueueService Channel → QueueService Channel
  store_unsent m q = record q { unsent_events = q.unsent_events ++ m ∷ [] }

  -- What the loop of `send_unsent_events` carries: the number sent, the connection, the service and RabbitMQ.
  abbrev pub Sending : Type 0
  Sending = ℕ × BrokerConnection Channel × QueueService Channel × W

  abbrev pub send_ended :
      Bytes → ℕ → QueueService Channel → Bool × BrokerConnection Channel × W → Sending
  send_ended m sent q (true, c, w) = (sent + 1, c, q, w)
  send_ended m sent q (false, c, w) = (sent, c, store_unsent m q, w)

  abbrev pub send_one : Bytes → Sending → Sending
  send_one m (sent, c, q, w) = send_ended m sent q (publish pika true m c w)

  unfoldable pub send_each : List Bytes → Sending → Sending
  send_each [] s = s
  send_each (m ∷ ms) s = send_each ms (send_one m s)

  abbrev pub released_after :
      ℕ × BrokerConnection Channel × QueueService Channel × W → ℕ × QueueService Channel × W
  released_after (sent, c, q, w) = (sent, release_connection (some c) q, w)

  abbrev pub send_over :
      Option (BrokerConnection Channel) × QueueService Channel × W → ℕ × QueueService Channel × W
  send_over (none, q, w) = (0, q, w)
  send_over (some c, q, w) =
      released_after (send_each q.unsent_events (0, c, record q { unsent_events = [] }, w))

  abbrev pub unless_empty : List Bytes → QueueService Channel → W → ℕ × QueueService Channel × W
  unless_empty [] q w = (0, q, w)
  unless_empty (m ∷ ms) q w = send_over (get_connection q w)

  unfoldable pub send_unsent_events : QueueService Channel → W → ℕ × QueueService Channel × W
  send_unsent_events q w = unless_empty q.unsent_events q w

  abbrev pub after_publish :
      Bytes
      → QueueService Channel
      → Bool × BrokerConnection Channel × W
      → ℕ × QueueService Channel × W
  after_publish m q (true, c, w) =
      let (sent, q', w') = send_unsent_events (release_connection (some c) q) w in
      (suc sent, q', w')
  after_publish m q (false, c, w) = (0, release_connection none (store_unsent m q), w)

  abbrev pub event_over :
      Bytes
      → Option (BrokerConnection Channel) × QueueService Channel × W
      → ℕ × QueueService Channel × W
  event_over m (none, q, w) = (0, store_unsent m q, w)
  event_over m (some c, q, w) = after_publish m q (publish pika true m c w)

  -- `json.dumps` has given the message.
  unfoldable pub send_event : Bytes → QueueService Channel → W → ℕ × QueueService Channel × W
  send_event m q w = event_over m (get_connection q w)

  unfoldable pub clear_unsent_events : QueueService Channel → QueueService Channel
  clear_unsent_events q = record q { unsent_events = [] }
