-- ===== src/Events/Broker.antt =====
-- `BrokerConnection` of safe_transaction_service/events/services/queue_service.py. RabbitMQ, as `pika` shows it,
-- is a state with one operation for each call of `pika`; `false` or `none` is a raised `AMQPError`.
use safe_transaction_service.Common.{Bytes, Bool, true, false, Option, none, some}

pub record Pika (W Channel : Type 0) : Type 0 where
  pub dial : W → Bool × W
  pub open_channel : W → Option Channel × W
  pub confirm_delivery : Channel → W → Bool × W
  pub exchange_declare : Channel → W → Bool × W
  pub basic_publish : Channel → Bytes → W → Bool × W

-- `connection` tells that the attribute of this name is not `None`.
pub record BrokerConnection (Channel : Type 0) : Type 0 where
  pub channel : Option Channel
  pub connection : Bool

module _ {W Channel : Type 0} (pika : Pika W Channel) where
  abbrev pub connect_declared :
      BrokerConnection Channel → Bool × W → Bool × BrokerConnection Channel × W
  connect_declared c (declared, w) = (declared, c, w)

  abbrev pub connect_confirmed :
      Channel → BrokerConnection Channel → Bool × W → Bool × BrokerConnection Channel × W
  connect_confirmed ch c (false, w) = (false, c, w)
  connect_confirmed ch c (true, w) = connect_declared c (pika.exchange_declare ch w)

  abbrev pub connect_opened :
      BrokerConnection Channel → Option Channel × W → Bool × BrokerConnection Channel × W
  connect_opened c (none, w) = (false, c, w)
  connect_opened c (some ch, w) =
      connect_confirmed ch (record c { channel = some ch }) (pika.confirm_delivery ch w)

  abbrev pub connect_dialed :
      BrokerConnection Channel → Bool × W → Bool × BrokerConnection Channel × W
  connect_dialed c (false, w) = (false, c, w)
  connect_dialed c (true, w) = connect_opened (record c { connection = true }) (pika.open_channel w)

  -- The channel that was opened stays when a later call raises.
  unfoldable pub connect : BrokerConnection Channel → W → Bool × BrokerConnection Channel × W
  connect c w = connect_dialed c (pika.dial w)

  -- `__init__` keeps what `connect` returns.
  abbrev initialized : Bool × BrokerConnection Channel × W → BrokerConnection Channel × W
  initialized (opened, c, w) = (record c { connection = opened }, w)

  unfoldable pub new_connection : W → BrokerConnection Channel × W
  new_connection w = initialized (connect (record { channel = none; connection = false }) w)

  -- The body of the `try` in `publish`.
  abbrev pub publish_once : Option Channel → Bytes → W → Bool × W
  publish_once none m w = (false, w)
  publish_once (some ch) m w = pika.basic_publish ch m w

  abbrev pub publish_again :
      Bytes → Bool × BrokerConnection Channel × W → Bool × BrokerConnection Channel × W
  publish_again m (opened, c, w) = let (sent, w') = publish_once c.channel m w in (sent, c, w')

  abbrev pub publish_tried :
      Bool → Bytes → BrokerConnection Channel → Bool × W → Bool × BrokerConnection Channel × W
  publish_tried retry m c (true, w) = (true, c, w)
  publish_tried true m c (false, w) = publish_again m (connect c w)
  publish_tried false m c (false, w) = (false, c, w)

  unfoldable pub publish :
      Bool → Bytes → BrokerConnection Channel → W → Bool × BrokerConnection Channel × W
  publish retry m c w = publish_tried retry m c (publish_once c.channel m w)
