-- ===== src/Events/Refines.antt =====
-- The queue service (safe_transaction_service/events/services/queue_service.py) over what RabbitMQ confirms.
use safe_transaction_service.Common.{
  Bytes, ℕ, suc, ◌+◌, ◌≡◌, refl, sym, ap, ◌∙◌, subst, Bool, true, false, Option, none, some, List,
  [], ◌∷◌, ◌++◌, append_assoc, append-nil, arith,
}
use safe_transaction_service.Events.{
  Pika, BrokerConnection, new_connection, publish, QueueService, checked_connection, from_pool,
  unless_reached, limit_reached, pop_last, get_connection, release_connection, store_unsent,
  send_each, send_ended, Sending, released_after, send_over, unless_empty, send_unsent_events,
  after_publish, event_over, send_event,
}
use safe_transaction_service.Events.Outbox.{Outbox, outbox, accept, Delivers, nothing, deliver}
use safe_transaction_service.Events.Confirms.{Confirms, logged, connect_same, publish_logs}

-- The service and RabbitMQ as an outbox.
abbrev pub view : {W Channel : Type 0} → (W → List Bytes) → QueueService Channel → W → Outbox
view confirmed q w = outbox (confirmed w) q.unsent_events

module _ {W Channel : Type 0} (pika : Pika W Channel) (limit : ℕ) (confirmed : W → List Bytes)
    (law : Confirms pika confirmed) where
  abbrev Conn : Type 0
  Conn = BrokerConnection Channel

  new_connection_same : (w : W) → confirmed (new_connection pika w).1 ≡ confirmed w
  unfolding new_connection
  new_connection_same w =
      connect_same pika confirmed law (record { channel = none; connection = false }) w

  checked_connection-view :
      (ch : Option Channel) (c : Conn) (q : QueueService Channel) (w : W)
      → let r = checked_connection pika limit ch c q w in
        view confirmed r.1 r.2 ≡ view confirmed q w
  checked_connection-view none c q w = refl
  checked_connection-view (some ch) c q w = refl

  from_pool-view :
      (pool : List Conn) (q : QueueService Channel) (w : W)
      → let r = from_pool pika limit pool q w in view confirmed r.1 r.2 ≡ view confirmed q w
  unfolding new_connection
  from_pool-view [] q w =
      let (c, w') = new_connection pika w in
      checked_connection-view c.channel c q w'
      ∙ ap (λ (ms : List Bytes). outbox ms q.unsent_events) (new_connection_same w)
  from_pool-view (a ∷ rest) q w =
      let (c, pool) = pop_last a rest in
      checked_connection-view c.channel c (record q { connection_pool = pool }) w

  unless_reached-view :
      (reached : Bool) (q : QueueService Channel) (w : W)
      → let r = unless_reached pika limit reached q w in view confirmed r.1 r.2 ≡ view confirmed q w
  unless_reached-view true q w = refl
  unless_reached-view false q w = from_pool-view q.connection_pool q w

  get_connection-view :
      (q : QueueService Channel) (w : W)
      → let r = get_connection pika limit q w in view confirmed r.1 r.2 ≡ view confirmed q w
  unfolding get_connection
  get_connection-view q w = unless_reached-view (limit_reached limit q.total_connections) q w

  pub get_connection_same :
      (q : QueueService Channel) (w : W) → confirmed (get_connection pika limit q w).2 ≡ confirmed w
  get_connection_same q w = ap (λ (o : Outbox). o.delivered) (get_connection-view q w)

  -- The loop, from `n` sent messages on, with `ms` still to publish.
  abbrev Leads : ℕ → Outbox → Sending pika limit → Type 0
  Leads n o (sent, c, q, w) = (k : ℕ) × (sent ≡ n + k) × Delivers k o (view confirmed q w)

  abbrev LeadsFrom : List Bytes → Type 0
  LeadsFrom ms =
      (n : ℕ) (c : Conn) (q : QueueService Channel) (w : W)
      → Leads n (outbox (confirmed w) (q.unsent_events ++ ms))
          (send_each pika limit ms (n, c, q, w))

  send_ended-Leads :
      (ms : List Bytes) (m : Bytes) (n : ℕ) (q : QueueService Channel) (w : W) (r : Bool × Conn × W)
      → LeadsFrom ms
      → confirmed r.2 ≡ logged r.0 m (confirmed w)
      → Leads n
          (outbox (confirmed w) (q.unsent_events ++ m ∷ ms))
          (send_each pika limit ms (send_ended pika limit m n q r))
  send_ended-Leads ms m n q w (true, c, w') next h =
      let (k, total, ds) = next (n + 1) c q w' in
      (suc k, omega arith, deliver m (confirmed w) q.unsent_events ms (rw h at ds))
  send_ended-Leads ms m n q w (false, c, w') next h =
      let (k, total, ds) = next n c (store_unsent pika limit m q) w' in
      (k, total, rw (h, append_assoc q.unsent_events (m ∷ []) ms) at ds)

  send_each-Leads : (ms : List Bytes) → LeadsFrom ms
  unfolding send_each
  send_each-Leads [] n c q w = (0, omega arith, rw (append-nil q.unsent_events) nothing)
  send_each-Leads (m ∷ ms) n c q w =
      send_ended-Leads ms m n q w (publish pika true m c w) (send_each-Leads ms)
        (publish_logs pika confirmed law true m c w)

  abbrev Refines : Outbox → ℕ × QueueService Channel × W → Type 0
  Refines o (n, q, w) = Delivers n o (view confirmed q w)

  released_after-Refines :
      (o : Outbox) (s : Sending pika limit) → Leads 0 o s → Refines o (released_after pika limit s)
  unfolding release_connection
  released_after-Refines o (n, c, q, w) (k, total, ds) =
      subst (λ j. Delivers j o (view confirmed q w)) (omega (arith, total)) ds

  send_over-Refines :
      (o : Outbox) (r : Option Conn × QueueService Channel × W)
      → view confirmed r.1 r.2 ≡ o
      → Refines o (send_over pika limit r)
  unfolding send_each
  send_over-Refines o (none, q, w) h = rw h nothing
  send_over-Refines o (some c, q, w) h =
      let empty : QueueService Channel = record q { unsent_events = [] } in
      released_after-Refines o (send_each pika limit q.unsent_events (0, c, empty, w))
        (rw h at (send_each-Leads q.unsent_events 0 c empty w))

  unless_empty-Refines :
      (ms : List Bytes) (q : QueueService Channel) (w : W)
      → Refines (view confirmed q w) (unless_empty pika limit ms q w)
  unfolding get_connection
  unless_empty-Refines [] q w = nothing
  unless_empty-Refines (m ∷ ms) q w =
      send_over-Refines (view confirmed q w) (get_connection pika limit q w)
        (get_connection-view q w)

  -- `send_unsent_events` delivers waiting messages, each at most once, and keeps the others in their
  -- order; it returns how many it delivered.
  pub send_unsent_events-Refines :
      (q : QueueService Channel) (w : W)
      → let (n, q', w') = send_unsent_events pika limit q w in
        Delivers n (view confirmed q w) (view confirmed q' w')
  unfolding send_unsent_events
  send_unsent_events-Refines q w = unless_empty-Refines q.unsent_events q w

  after_publish-Refines :
      (m : Bytes) (q : QueueService Channel) (ms : List Bytes) (r : Bool × Conn × W)
      → confirmed r.2 ≡ logged r.0 m ms
      → Refines (outbox ms (q.unsent_events ++ m ∷ [])) (after_publish pika limit m q r)
  unfolding release_connection
  after_publish-Refines m q ms (true, c, w) h =
      let q' : QueueService Channel = release_connection pika limit (some c) q in
      deliver m ms q.unsent_events []
        (rw (append-nil q.unsent_events, sym h) (send_unsent_events-Refines q' w))
  after_publish-Refines m q ms (false, c, w) h = rw (sym h) nothing

  event_over-Refines :
      (m : Bytes) (o : Outbox) (r : Option Conn × QueueService Channel × W)
      → view confirmed r.1 r.2 ≡ o
      → Refines (accept m o) (event_over pika limit m r)
  unfolding publish accept
  event_over-Refines m o (none, q, w) h = rw (sym h) nothing
  event_over-Refines m o (some c, q, w) h =
      subst (λ (x : Outbox). Refines (accept m x) (event_over pika limit m (some c, q, w))) h
        (after_publish-Refines m q (confirmed w) (publish pika true m c w)
          (publish_logs pika confirmed law true m c w))

  -- `send_event m` puts `m` behind the waiting messages, then delivers waiting messages, each at most
  -- once, and keeps the others in their order; it returns how many it delivered.
  pub send_event-Refines :
      (m : Bytes) (q : QueueService Channel) (w : W)
      → let (n, q', w') = send_event pika limit m q w in
        Delivers n (accept m (view confirmed q w)) (view confirmed q' w')
  unfolding send_event
  send_event-Refines m q w =
      event_over-Refines m (view confirmed q w) (get_connection pika limit q w)
        (get_connection-view q w)
