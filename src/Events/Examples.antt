-- ===== src/Events/Examples.antt =====
-- Runs of the queue service over two brokers: one that takes every message, and one that refuses the message 9.
use safe_transaction_service.Common.{
  Bytes, ◌≡◌, refl, Bool, true, false, not, some, List, [], ◌∷◌, pos, bytes_eq, ◌-ℤ◌, ◌+ℤ◌, arith,
}
use safe_transaction_service.Events.{
  Pika, QueueService, new_service, send_event, send_unsent_events, get_connection,
  release_connection, connect, publish, new_connection, send_each,
}
use safe_transaction_service.Events.Outbox.{outbox, accept, Delivers}
use safe_transaction_service.Events.Refines.{send_event-Refines}
use safe_transaction_service.Events.Confirms.{Confirms, logged}
use safe_transaction_service.Events.Pool.{
  IsBalanced, initial, taken, get, more, here, pool-IsBalanced,
}
use safe_transaction_service.Events.Drain.{IsUp, Drained, send_event_drains}

abbrev nine : Bytes
nine = 9 ∷ []

abbrev seven : Bytes
seven = 7 ∷ []

-- The state of the broker is what it has taken; a channel carries nothing.
abbrev broker_but : (Bytes → Bool) → Pika (List Bytes) (Unit {0})
broker_but refuses = record {
  dial = λ w. (true, w);
  open_channel = λ w. (some tt, w);
  confirm_delivery = λ ch w. (true, w);
  exchange_declare = λ ch w. (true, w);
  basic_publish = λ ch m w. (not (refuses m), logged (not (refuses m)) m w);
}

abbrev fussy : Pika (List Bytes) (Unit {0})
fussy = broker_but (λ m. bytes_eq m nine)

abbrev willing : Pika (List Bytes) (Unit {0})
willing = broker_but (λ m. false)

fussy-Confirms : Confirms fussy (λ w. w)
fussy-Confirms = record {
  dial_same = λ w. refl;
  open_same = λ w. refl;
  confirm_same = λ ch w. refl;
  declare_same = λ ch w. refl;
  publish_logged = λ ch m w. refl;
}

willing-Confirms : Confirms willing (λ w. w)
willing-Confirms = record {
  dial_same = λ w. refl;
  open_same = λ w. refl;
  confirm_same = λ ch w. refl;
  declare_same = λ ch w. refl;
  publish_logged = λ ch m w. refl;
}

willing-IsUp : IsUp willing 1
willing-IsUp = record { dials = λ w. refl; opens = λ w. (tt, refl); publishes = λ ch m w. refl }

-- Two messages wait, one of which the broker refuses.
abbrev waiting_two : QueueService (Unit {0})
waiting_two = record new_service { unsent_events = nine ∷ seven ∷ [] }

run_two : send_event fussy 1 seven waiting_two [] ≡ (
  2,
  record {
    connection_pool = record { channel = some tt; connection = true } ∷ [];
    total_connections = pos 0;
    unsent_events = nine ∷ [];
  },
  seven ∷ seven ∷ [],
)
unfolding send_event send_unsent_events get_connection release_connection publish connect
    new_connection send_each ◌-ℤ◌ ◌+ℤ◌
run_two = refl

send_event-Refines_example :
    Delivers 2 (outbox [] (nine ∷ seven ∷ seven ∷ [])) (outbox (seven ∷ seven ∷ []) (nine ∷ []))
unfolding send_event send_unsent_events get_connection release_connection publish connect
    new_connection send_each accept ◌-ℤ◌ ◌+ℤ◌
send_event-Refines_example = send_event-Refines fussy 1 (λ w. w) fussy-Confirms seven waiting_two []

-- A caller gets a connection, a second one is refused by the limit.
pool-IsBalanced_example : IsBalanced fussy 1 (
    taken fussy 1
      (get_connection fussy 1 (taken fussy 1 (get_connection fussy 1 new_service []) []).service [])
      (record { channel = some tt; connection = true } ∷ []))
unfolding get_connection new_connection connect
pool-IsBalanced_example = pool-IsBalanced fussy 1 [] (
    more (get (initial fussy 1 []))
      (more (get (taken fussy 1 (get_connection fussy 1 new_service []) [])) here))

-- The message 9 is published, then the waiting 9 and 7.
send_event_drains_example :
    Drained willing 1 willing-IsUp
      (λ w. w)
      willing-Confirms
      (nine ∷ nine ∷ seven ∷ [])
      []
      (send_event willing 1 nine waiting_two [])
send_event_drains_example =
    send_event_drains willing 1 willing-IsUp (λ w. w) willing-Confirms nine waiting_two [] []
      waiting_two-IsBalanced refl
  where
    waiting_two-IsBalanced :
        IsBalanced willing 1 (record { service = waiting_two; broker = []; held = [] })
    waiting_two-IsBalanced = record {
      counted = refl;
      within = omega arith;
      pool_ready = tt;
      held_ready = tt;
    }
