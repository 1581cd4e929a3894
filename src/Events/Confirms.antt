-- ===== src/Events/Confirms.antt =====
-- RabbitMQ confirms to the client (safe_transaction_service/events/services/queue_service.py).
use safe_transaction_service.Common.{
  Bytes, ◌≡◌, refl, ap, ◌∙◌, Bool, true, false, Option, none, some, List, [], ◌∷◌, ◌++◌,
}
use safe_transaction_service.Events.{
  Pika, BrokerConnection, connect, connect_opened, connect_confirmed, connect_dialed, publish_once,
  publish_tried, publish,
}

abbrev pub logged : Bool → Bytes → List Bytes → List Bytes
logged true m ms = ms ++ m ∷ []
logged false m ms = ms

module _ {W Channel : Type 0} (pika : Pika W Channel) where
  -- Publisher confirms: the messages that RabbitMQ has confirmed to the client grow by a message with each
  -- `basic_publish` of it that returns, and with nothing else.
  pub record Confirms (confirmed : W → List Bytes) : Type 0 where
    pub dial_same : (w : W) → confirmed (pika.dial w).1 ≡ confirmed w
    pub open_same : (w : W) → confirmed (pika.open_channel w).1 ≡ confirmed w
    pub confirm_same :
        (ch : Channel) (w : W) → confirmed (pika.confirm_delivery ch w).1 ≡ confirmed w
    pub declare_same :
        (ch : Channel) (w : W) → confirmed (pika.exchange_declare ch w).1 ≡ confirmed w
    pub publish_logged :
        (ch : Channel) (m : Bytes) (w : W)
        → confirmed (pika.basic_publish ch m w).1
          ≡ logged (pika.basic_publish ch m w).0 m (confirmed w)

module _ {W Channel : Type 0} (pika : Pika W Channel) (confirmed : W → List Bytes)
    (law : Confirms pika confirmed) where
  abbrev Conn : Type 0
  Conn = BrokerConnection Channel

  connect_confirmed_same :
      (ch : Channel) (c : Conn) (r : Bool × W)
      → confirmed (connect_confirmed pika ch c r).2 ≡ confirmed r.1
  connect_confirmed_same ch c (false, w) = refl
  connect_confirmed_same ch c (true, w) = law.declare_same ch w

  connect_opened_same :
      (c : Conn) (r : Option Channel × W) → confirmed (connect_opened pika c r).2 ≡ confirmed r.1
  connect_opened_same c (none, w) = refl
  connect_opened_same c (some ch, w) =
      connect_confirmed_same ch (record c { channel = some ch }) (pika.confirm_delivery ch w)
      ∙ law.confirm_same ch w

  connect_dialed_same :
      (c : Conn) (r : Bool × W) → confirmed (connect_dialed pika c r).2 ≡ confirmed r.1
  connect_dialed_same c (false, w) = refl
  connect_dialed_same c (true, w) =
      connect_opened_same (record c { connection = true }) (pika.open_channel w) ∙ law.open_same w

  pub connect_same : (c : Conn) (w : W) → confirmed (connect pika c w).2 ≡ confirmed w
  unfolding connect
  connect_same c w = connect_dialed_same c (pika.dial w) ∙ law.dial_same w

  publish_once-logged :
      (ch : Option Channel) (m : Bytes) (w : W)
      → confirmed (publish_once pika ch m w).1 ≡ logged (publish_once pika ch m w).0 m (confirmed w)
  publish_once-logged none m w = refl
  publish_once-logged (some ch) m w = law.publish_logged ch m w

  publish_tried-logged :
      (retry : Bool) (m : Bytes) (c : Conn) (ms : List Bytes) (r : Bool × W)
      → confirmed r.1 ≡ logged r.0 m ms
      → confirmed (publish_tried pika retry m c r).2
        ≡ logged (publish_tried pika retry m c r).0 m ms
  unfolding connect
  publish_tried-logged retry m c ms (true, w) h = h
  publish_tried-logged true m c ms (false, w) h =
      publish_once-logged (connect pika c w).1.channel m (connect pika c w).2
      ∙ ap (logged _ m) (connect_same c w ∙ h)
  publish_tried-logged false m c ms (false, w) h = h

  pub publish_logs :
      (retry : Bool) (m : Bytes) (c : Conn) (w : W)
      → confirmed (publish pika retry m c w).2 ≡ logged (publish pika retry m c w).0 m (confirmed w)
  unfolding publish
  publish_logs retry m c w =
      publish_tried-logged retry m c (confirmed w) (publish_once pika c.channel m w)
        (publish_once-logged c.channel m w)
