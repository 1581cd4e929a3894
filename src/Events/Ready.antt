-- ===== src/Events/Ready.antt =====
-- `BrokerConnection` of safe_transaction_service/events/services/queue_service.py: whether a connection has a channel.
use safe_transaction_service.Common.{
  Bool, true, false, Option, none, some, List, [], ◌∷◌, Bytes, All, ◌≢◌,
}
use safe_transaction_service.Events.{
  publish, connect, connect_opened, connect_dialed, connect_confirmed, publish_tried, Pika,
  BrokerConnection, pop_last,
}

abbrev pub IsReady : {Channel : Type 0} → BrokerConnection Channel → Type 0
IsReady c = c.channel ≢ none

module _ {W Channel : Type 0} (pika : Pika W Channel) where
  -- `connect` never takes a channel away.
  connect_confirmed-IsReady :
      (ch : Channel) (c : BrokerConnection Channel) (r : Bool × W)
      → IsReady c
      → IsReady (connect_confirmed pika ch c r).1
  connect_confirmed-IsReady ch c (false, w) h = h
  connect_confirmed-IsReady ch c (true, w) h = h

  connect_opened-IsReady :
      (c : BrokerConnection Channel) (r : Option Channel × W)
      → IsReady c
      → IsReady (connect_opened pika c r).1
  connect_opened-IsReady c (none, w) h = h
  connect_opened-IsReady c (some ch, w) h =
      connect_confirmed-IsReady ch (record c { channel = some ch }) (pika.confirm_delivery ch w)
        (λ e. cc)

  connect_dialed-IsReady :
      (c : BrokerConnection Channel) (r : Bool × W)
      → IsReady c
      → IsReady (connect_dialed pika c r).1
  connect_dialed-IsReady c (false, w) h = h
  connect_dialed-IsReady c (true, w) h =
      connect_opened-IsReady (record c { connection = true }) (pika.open_channel w) h

  publish_tried-IsReady :
      (retry : Bool) (m : Bytes) (c : BrokerConnection Channel) (r : Bool × W)
      → IsReady c
      → IsReady (publish_tried pika retry m c r).1
  unfolding connect
  publish_tried-IsReady retry m c (true, w) h = h
  publish_tried-IsReady true m c (false, w) h = connect_dialed-IsReady c (pika.dial w) h
  publish_tried-IsReady false m c (false, w) h = h

  pub publish-IsReady :
      (retry : Bool) (m : Bytes) (c : BrokerConnection Channel) (w : W)
      → IsReady c
      → IsReady (publish pika retry m c w).1
  unfolding publish
  publish-IsReady retry m c w h = publish_tried-IsReady retry m c _ h

  pub pop_last-IsReady_rest :
      (a : BrokerConnection Channel) (xs : List (BrokerConnection Channel))
      → All IsReady (a ∷ xs)
      → All IsReady (pop_last a xs).1
  pop_last-IsReady_rest a [] h = tt
  pop_last-IsReady_rest a (b ∷ xs) (h, hs) = (h, pop_last-IsReady_rest b xs hs)
