-- ===== src/Events/Drain.antt =====
-- The queue (safe_transaction_service/events/services/queue_service.py) while RabbitMQ answers.
use safe_transaction_service.Common.{
  Bytes, ℕ, suc, ◌++◌, append-nil, append_assoc, ◌+◌, ◌≡◌, refl, sym, ap, ◌∙◌, subst, Bool, true,
  false, Option, none, some, List, [], ◌∷◌, ◌≢◌, All, length, arith,
}
use safe_transaction_service.Events.{
  Pika, BrokerConnection, new_connection, connect, connect_dialed, connect_opened,
  connect_confirmed, publish, publish_once, publish_tried, QueueService, checked_connection,
  from_pool, limit_reached, pop_last, get_connection, release_connection, send_each, send_over,
  unless_empty, send_unsent_events, send_event,
}
use safe_transaction_service.Events.Ready.{IsReady}
use safe_transaction_service.Events.Confirms.{Confirms, publish_logs}
use safe_transaction_service.Events.Refines.{get_connection_same}
use safe_transaction_service.Events.Pool.{IsBalanced, taken, ⟶-IsBalanced, get, release}

module _ {W Channel : Type 0} (pika : Pika W Channel) (limit : ℕ) where
  -- RabbitMQ takes connections and messages.
  pub record IsUp : Type 0 where
    pub dials : (w : W) → (pika.dial w).0 ≡ true
    pub opens : (w : W) → (ch : Channel) × ((pika.open_channel w).0 ≡ some ch)
    pub publishes : (ch : Channel) (m : Bytes) (w : W) → (pika.basic_publish ch m w).0 ≡ true

module _ {W Channel : Type 0} (pika : Pika W Channel) (limit : ℕ) (up : IsUp pika limit)
    (confirmed : W → List Bytes) (law : Confirms pika confirmed) where
  publish_tried_up :
      (m : Bytes) (c : BrokerConnection Channel) (r : Bool × W)
      → r.0 ≡ true
      → (w : W) × (publish_tried pika true m c r ≡ (true, c, w))
  publish_tried_up m c (true, w) h = (w, refl)
  publish_tried_up m c (false, w) h = cc

  publish_once_up :
      (ch : Option Channel) (m : Bytes) (w : W) → ch ≢ none → (publish_once pika ch m w).0 ≡ true
  publish_once_up none m w h = elim (h refl) [ ]
  publish_once_up (some ch) m w h = up.publishes ch m w

  publish_up :
      (m : Bytes) (c : BrokerConnection Channel) (w : W)
      → IsReady c
      → (w' : W) × (publish pika true m c w ≡ (true, c, w'))
        × (confirmed w' ≡ confirmed w ++ m ∷ [])
  unfolding publish
  publish_up m c w h =
      let (w', e) = publish_tried_up m c _ (publish_once_up c.channel m w h) in
      (w', e, rw e at (publish_logs pika confirmed law true m c w))

  send_each_up :
      (ms : List Bytes) (n : ℕ) (c : BrokerConnection Channel) (q : QueueService Channel) (w : W)
      → IsReady c
      → (w' : W) × (send_each pika limit ms (n, c, q, w) ≡ (n + length ms, c, q, w'))
        × (confirmed w' ≡ confirmed w ++ ms)
  unfolding send_each
  send_each_up [] n c q w h =
      (w, ap (λ (k : ℕ). (k, c, q, w)) (omega arith), sym (append-nil (confirmed w)))
  send_each_up (m ∷ ms) n c q w h =
      let (w1, e, p) = publish_up m c w h in
      let (w2, es, ps) = send_each_up ms (n + 1) c q w1 h in
      (
        w2,
        rw e (es ∙ ap (λ (k : ℕ). (k, c, q, w2)) (omega arith)),
        ps ∙ ap (λ (xs : List Bytes). xs ++ ms) p ∙ append_assoc (confirmed w) (m ∷ []) ms,
      )

  connect_confirmed_has :
      (ch : Channel) (c : BrokerConnection Channel) (r : Bool × W)
      → (connect_confirmed pika ch c r).1.channel ≡ c.channel
  connect_confirmed_has ch c (false, w) = refl
  connect_confirmed_has ch c (true, w) = refl

  connect_opened_has :
      (c : BrokerConnection Channel) (ch : Channel) (r : Option Channel × W)
      → r.0 ≡ some ch
      → (connect_opened pika c r).1.channel ≡ some ch
  connect_opened_has c ch (none, w) h = cc
  connect_opened_has c ch (some x, w) h =
      connect_confirmed_has x (record c { channel = some x }) (pika.confirm_delivery x w) ∙ h

  connect_dialed_has :
      (c : BrokerConnection Channel) (r : Bool × W)
      → r.0 ≡ true
      → (ch : Channel) × ((connect_dialed pika c r).1.channel ≡ some ch)
  connect_dialed_has c (false, w) h = cc
  connect_dialed_has c (true, w) h =
      let (ch, e) = up.opens w in
      (ch, connect_opened_has (record c { connection = true }) ch (pika.open_channel w) e)

  new_connection_has : (w : W) → (ch : Channel) × ((new_connection pika w).0.channel ≡ some ch)
  unfolding new_connection connect
  new_connection_has w =
      connect_dialed_has (record { channel = none; connection = false }) (pika.dial w) (up.dials w)

  abbrev Got :
      QueueService Channel → Option (BrokerConnection Channel) × QueueService Channel × W → Type 0
  Got q r =
      (c : BrokerConnection Channel) × (q' : QueueService Channel) × (w : W) × (r ≡ (some c, q', w))
      × (q'.unsent_events ≡ q.unsent_events)

  checked_connection-Got :
      (ch : Option Channel) (c : BrokerConnection Channel) (q : QueueService Channel) (w : W)
      → ch ≢ none
      → Got q (checked_connection pika limit ch c q w)
  checked_connection-Got none c q w h = elim (h refl) [ ]
  checked_connection-Got (some ch) c q w h = (c, _, w, refl, refl)

  pop_last-IsReady :
      (a : BrokerConnection Channel) (xs : List (BrokerConnection Channel))
      → All IsReady (a ∷ xs)
      → IsReady (pop_last a xs).0
  pop_last-IsReady a [] (h, hs) = h
  pop_last-IsReady a (b ∷ xs) (h, hs) = pop_last-IsReady b xs hs

  from_pool-Got :
      (pool : List (BrokerConnection Channel)) (q : QueueService Channel) (w : W)
      → All IsReady pool
      → Got q (from_pool pika limit pool q w)
  from_pool-Got [] q w h =
      let (c, w') = new_connection pika w in
      let (ch, e) = new_connection_has w in checked_connection-Got c.channel c q w' (rw e (λ n. cc))
  from_pool-Got (a ∷ rest) q w h =
      let (c, pool) = pop_last a rest in
      let (c', q', w', e, same) =
        checked_connection-Got c.channel c (record q { connection_pool = pool }) w
          (pop_last-IsReady a rest h) in
      (c', q', w', e, same)

  abbrev Room : QueueService Channel → Type 0
  Room q = limit_reached limit q.total_connections ≡ false

  abbrev Balanced : QueueService Channel → W → List (BrokerConnection Channel) → Type 0
  Balanced q w cs = IsBalanced pika limit (record { service = q; broker = w; held = cs })

  get_connection-Got :
      (q : QueueService Channel) (w : W) (cs : List (BrokerConnection Channel))
      → Balanced q w cs
      → Room q
      → Got q (get_connection pika limit q w)
  unfolding get_connection
  get_connection-Got q w cs h room = rw room (from_pool-Got q.connection_pool q w h.pool_ready)

  got-Balanced :
      (q : QueueService Channel) (w : W) (cs : List (BrokerConnection Channel))
      (c : BrokerConnection Channel) (q' : QueueService Channel) (w' : W)
      → Balanced q w cs
      → get_connection pika limit q w ≡ (some c, q', w')
      → Balanced q' w' (c ∷ cs)
  got-Balanced q w cs c q' w' h e =
      subst
        (λ (r : Option (BrokerConnection Channel) × QueueService Channel × W).
          IsBalanced pika limit (taken pika limit r cs))
        e (⟶-IsBalanced pika limit (get (record { service = q; broker = w; held = cs })) h)

  -- The messages are confirmed, in their order and after those that were, none is left, and the number is theirs.
  pub record Drained (ms : List Bytes) (w : W) (r : ℕ × QueueService Channel × W) : Type 0 where
    pub counted : r.0 ≡ length ms
    pub emptied : r.1.unsent_events ≡ []
    pub published : confirmed r.2 ≡ confirmed w ++ ms

  send_over-Drained :
      (ms : List Bytes) (c : BrokerConnection Channel) (q : QueueService Channel) (w : W)
      → IsReady c
      → q.unsent_events ≡ ms
      → Drained ms w (send_over pika limit (some c, q, w))
  unfolding release_connection
  send_over-Drained ms c q w ready e =
      let (w', sent, logs) =
        send_each_up q.unsent_events 0 c (record q { unsent_events = [] }) w ready in
      rw sent (record {
        counted = omega (arith, ap length e);
        emptied = refl;
        published = logs ∙ ap (λ (xs : List Bytes). confirmed w ++ xs) e;
      })

  unless_empty-Drained :
      (ms : List Bytes) (q : QueueService Channel) (w : W) (cs : List (BrokerConnection Channel))
      → q.unsent_events ≡ ms
      → Balanced q w cs
      → Room q
      → Drained ms w (unless_empty pika limit ms q w)
  unless_empty-Drained [] q w cs e h room = record {
    counted = refl;
    emptied = e;
    published = sym (append-nil (confirmed w));
  }
  unless_empty-Drained (m ∷ ms) q w cs e h room =
      let (c, q', w', got, same) = get_connection-Got q w cs h room in
      let balanced = got-Balanced q w cs c q' w' h got in
      let kept : confirmed w' ≡ confirmed w =
        rw got at (get_connection_same pika limit confirmed law q w) in
      let over = send_over-Drained (m ∷ ms) c q' w' balanced.held_ready.0 (same ∙ e) in
      rw got (record {
        counted = over.counted;
        emptied = over.emptied;
        published = over.published ∙ ap (λ (xs : List Bytes). xs ++ m ∷ ms) kept;
      })

  -- While RabbitMQ takes connections and messages, confirming each message that it takes, the pool is
  -- balanced and the limit is not reached: a call of `send_event` publishes its message and then all
  -- unsent ones in their order, each once and nothing else, which leaves none, and returns how many these are.
  pub send_event_drains :
      (m : Bytes) (q : QueueService Channel) (w : W) (cs : List (BrokerConnection Channel))
      → Balanced q w cs
      → Room q
      → Drained (m ∷ q.unsent_events) w (send_event pika limit m q w)
  unfolding send_event release_connection send_unsent_events
  send_event_drains m q w cs h room =
      let (c, q1, w1, got, same) = get_connection-Got q w cs h room in
      let balanced = got-Balanced q w cs c q1 w1 h got in
      let kept : confirmed w1 ≡ confirmed w =
        rw got at (get_connection_same pika limit confirmed law q w) in
      let (w2, sent, log) = publish_up m c w1 balanced.held_ready.0 in
      let q2 : QueueService Channel = release_connection pika limit (some c) q1 in
      let balanced' : Balanced q2 w2 cs = ⟶-IsBalanced pika limit (release q1 w2 [] cs c) (record {
        counted = balanced.counted;
        within = balanced.within;
        pool_ready = balanced.pool_ready;
        held_ready = balanced.held_ready;
      }) in
      let room' : Room q2 = rw (balanced'.counted, sym h.counted) room in
      let rest = unless_empty-Drained q1.unsent_events q2 w2 cs refl balanced' room' in
      rw (got, sent)
        (record {
          counted = ap suc (rest.counted ∙ ap length same);
          emptied = rest.emptied;
          published =
              rest.published
              ∙ ap (λ (xs : List Bytes). xs ++ q1.unsent_events)
                  (log ∙ ap (λ (xs : List Bytes). xs ++ m ∷ []) kept)
              ∙ append_assoc (confirmed w) (m ∷ []) q1.unsent_events
              ∙ ap (λ (xs : List Bytes). confirmed w ++ m ∷ xs) same;
        })
