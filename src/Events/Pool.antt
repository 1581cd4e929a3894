-- ===== src/Events/Pool.antt =====
-- The pool of connections (safe_transaction_service/events/services/queue_service.py) under callers that take turns.
use safe_transaction_service.Common.{
  ℕ, zero, suc, ◌≤◌, ◌≡◌, refl, ap, ◌∙◌, Bool, true, false, Option, none, some, List, [], ◌∷◌, ◌++◌,
  arith, Bytes, All-append, All-of_append, length, pos, ◌-ℤ◌, +ℤ_pos, All, length-append, -ℤ_pos_le,
}
use safe_transaction_service.Events.{
  new_service, publish, Pika, BrokerConnection, new_connection, QueueService, checked_connection,
  from_pool, unless_reached, limit_reached, pop_last, get_connection, release_connection,
}
use safe_transaction_service.Events.Ready.{IsReady, publish-IsReady, pop_last-IsReady_rest}

-- The service, RabbitMQ, and the connections that callers have got and not yet released.
pub record System (W Channel : Type 0) : Type 0 where
  pub service : QueueService Channel
  pub broker : W
  pub held : List (BrokerConnection Channel)

module _ {W Channel : Type 0} (pika : Pika W Channel) (limit : ℕ) where
  abbrev pub hold :
      Option (BrokerConnection Channel)
      → List (BrokerConnection Channel)
      → List (BrokerConnection Channel)
  hold none cs = cs
  hold (some c) cs = c ∷ cs

  abbrev pub taken :
      Option (BrokerConnection Channel) × QueueService Channel × W
      → List (BrokerConnection Channel)
      → System W Channel
  taken (c, q, w) cs = record { service = q; broker = w; held = hold c cs }

  infix 40 ◌⟶◌ ◌⟶*◌
  -- One turn of some caller: it gets a connection; it uses RabbitMQ through one it holds, which may be
  -- connected anew; or it releases one, to the pool or not.
  pub data ◌⟶◌ : System W Channel → System W Channel → Type 0 where
    get : (s : System W Channel) → s ⟶ taken (get_connection pika limit s.service s.broker) s.held
    use_one :
        (q : QueueService Channel) (w : W) (before after : List (BrokerConnection Channel))
        (c : BrokerConnection Channel) (retry : Bool) (m : Bytes)
        → record { service = q; broker = w; held = before ++ c ∷ after } ⟶ (
            let (sent, c', w') = publish pika retry m c w in
            record { service = q; broker = w'; held = before ++ c' ∷ after })
    release :
        (q : QueueService Channel) (w : W) (before after : List (BrokerConnection Channel))
        (c : BrokerConnection Channel)
        → record { service = q; broker = w; held = before ++ c ∷ after } ⟶ record {
          service = release_connection pika limit (some c) q;
          broker = w;
          held = before ++ after;
        }
    discard :
        (q : QueueService Channel) (w : W) (before after : List (BrokerConnection Channel))
        (c : BrokerConnection Channel)
        → record { service = q; broker = w; held = before ++ c ∷ after } ⟶ record {
          service = release_connection pika limit none q;
          broker = w;
          held = before ++ after;
        }

  pub data ◌⟶*◌ : System W Channel → System W Channel → Type 0 where
    here : {s : System W Channel} → s ⟶* s
    more : {s t u : System W Channel} → s ⟶ t → t ⟶* u → s ⟶* u

  abbrev WithinLimit : ℕ → ℕ → Type 0
  WithinLimit zero n = Unit
  WithinLimit (suc l) n = n ≤ suc l

  pub record IsBalanced (s : System W Channel) : Type 0 where
    pub counted : s.service.total_connections ≡ pos (length s.held)
    pub within : WithinLimit limit (length s.held)
    pub pool_ready : All IsReady s.service.connection_pool
    pub held_ready : All IsReady s.held

  limit_room : (l n : ℕ) → limit_reached l (pos n) ≡ false → WithinLimit l (suc n)
  limit_room zero n h = tt
  limit_room (suc l) n h = ground arith

  WithinLimit-less : (l m n : ℕ) → n ≤ m → WithinLimit l m → WithinLimit l n
  WithinLimit-less zero m n h k = tt
  WithinLimit-less (suc l) m n h k = omega arith

  checked_connection-IsBalanced :
      (ch : Option Channel) (c : BrokerConnection Channel) (q : QueueService Channel) (w : W)
      (cs : List (BrokerConnection Channel))
      → c.channel ≡ ch
      → limit_reached limit q.total_connections ≡ false
      → IsBalanced (record { service = q; broker = w; held = cs })
      → IsBalanced (taken (checked_connection pika limit ch c q w) cs)
  checked_connection-IsBalanced none c q w cs e room h = record h {}
  checked_connection-IsBalanced (some ch) c q w cs e room h = record {
    counted = rw h.counted (+ℤ_pos (length cs) 1 ∙ ap pos (omega arith));
    within = limit_room limit (length cs) (rw h.counted at room);
    pool_ready = h.pool_ready;
    held_ready = ((λ n. cc), h.held_ready);
  }

  from_pool-IsBalanced :
      (pool : List (BrokerConnection Channel)) (q : QueueService Channel) (w : W)
      (cs : List (BrokerConnection Channel))
      → q.connection_pool ≡ pool
      → limit_reached limit q.total_connections ≡ false
      → IsBalanced (record { service = q; broker = w; held = cs })
      → IsBalanced (taken (from_pool pika limit pool q w) cs)
  from_pool-IsBalanced [] q w cs e room h =
      let (c, w') = new_connection pika w in
      checked_connection-IsBalanced c.channel c q w' cs refl room (record {
        counted = h.counted;
        within = h.within;
        pool_ready = h.pool_ready;
        held_ready = h.held_ready;
      })
  from_pool-IsBalanced (a ∷ rest) q w cs e room h =
      let (c, pool) = pop_last a rest in
      let q' : QueueService Channel = record q { connection_pool = pool } in
      checked_connection-IsBalanced c.channel c q' w cs refl room (record {
        counted = h.counted;
        within = h.within;
        pool_ready = pop_last-IsReady_rest pika a rest (rw e at h.pool_ready);
        held_ready = h.held_ready;
      })

  unless_reached-IsBalanced :
      (reached : Bool) (q : QueueService Channel) (w : W) (cs : List (BrokerConnection Channel))
      → limit_reached limit q.total_connections ≡ reached
      → IsBalanced (record { service = q; broker = w; held = cs })
      → IsBalanced (taken (unless_reached pika limit reached q w) cs)
  unless_reached-IsBalanced true q w cs e h = record h {}
  unless_reached-IsBalanced false q w cs e h =
      from_pool-IsBalanced q.connection_pool q w cs refl e h

  released :
      (q : QueueService Channel) (before after : List (BrokerConnection Channel))
      (c : BrokerConnection Channel)
      → q.total_connections ≡ pos (length (before ++ c ∷ after))
      → q.total_connections -ℤ pos 1 ≡ pos (length (before ++ after))
  released q before after c h = rw h (
      -ℤ_pos_le (length (before ++ c ∷ after)) 1 (omega (arith, length-append before (c ∷ after)))
      ∙ ap pos (omega (arith, length-append before (c ∷ after), length-append before after)))

  IsReady-append :
      (before after : List (BrokerConnection Channel)) (c : BrokerConnection Channel)
      → All IsReady (before ++ c ∷ after)
      → IsReady c × All IsReady (before ++ after)
  IsReady-append before after c h =
      let (hb, (hc, ha)) = All-of_append IsReady before (c ∷ after) h in
      (hc, All-append IsReady before after hb ha)

  fewer :
      (before after : List (BrokerConnection Channel)) (c : BrokerConnection Channel)
      → length (before ++ after) ≤ length (before ++ c ∷ after)
  fewer before after c = omega (arith, length-append before (c ∷ after), length-append before after)

  pub ⟶-IsBalanced : {s t : System W Channel} → s ⟶ t → IsBalanced s → IsBalanced t
  unfolding get_connection release_connection
  ⟶-IsBalanced (get s) h =
      unless_reached-IsBalanced (limit_reached limit s.service.total_connections) s.service s.broker
        s.held refl h
  ⟶-IsBalanced (use_one q w before after c retry m) h =
      let c' : BrokerConnection Channel = (publish pika retry m c w).1 in
      let (hb, (hc, ha)) = All-of_append IsReady before (c ∷ after) h.held_ready in
      let same : length (before ++ c' ∷ after) ≡ length (before ++ c ∷ after) =
        omega (arith, length-append before (c ∷ after), length-append before (c' ∷ after)) in
      record {
        counted = rw same h.counted;
        within = rw same h.within;
        pool_ready = h.pool_ready;
        held_ready =
            All-append IsReady before (c' ∷ after) hb (publish-IsReady pika retry m c w hc, ha);
      }
  ⟶-IsBalanced (release q w before after c) h =
      let (ready, others) = IsReady-append before after c h.held_ready in
      record {
        counted = released q before after c h.counted;
        within = WithinLimit-less limit _ _ (fewer before after c) h.within;
        pool_ready = (ready, h.pool_ready);
        held_ready = others;
      }
  ⟶-IsBalanced (discard q w before after c) h =
      let (ready, others) = IsReady-append before after c h.held_ready in
      record {
        counted = released q before after c h.counted;
        within = WithinLimit-less limit _ _ (fewer before after c) h.within;
        pool_ready = h.pool_ready;
        held_ready = others;
      }

  ⟶*-IsBalanced : {s t : System W Channel} → s ⟶* t → IsBalanced s → IsBalanced t
  ⟶*-IsBalanced here h = h
  ⟶*-IsBalanced (more e es) h = ⟶*-IsBalanced es (⟶-IsBalanced e h)

  abbrev pub initial : W → System W Channel
  initial w = record { service = new_service; broker = w; held = [] }

  initial-IsBalanced : (w : W) → IsBalanced (initial w)
  initial-IsBalanced w = record {
    counted = refl;
    within = WithinLimit_zero limit;
    pool_ready = tt;
    held_ready = tt;
  }
    where
      WithinLimit_zero : (l : ℕ) → WithinLimit l 0
      WithinLimit_zero zero = tt
      WithinLimit_zero (suc l) = omega arith

  -- Whatever turns callers take from the new service on, `_total_connections` is the number of
  -- connections they hold, which is within the limit if there is one, and each connection that is held or
  -- in the pool has a channel.
  pub pool-IsBalanced : (w : W) {t : System W Channel} → initial w ⟶* t → IsBalanced t
  pool-IsBalanced w es = ⟶*-IsBalanced es (initial-IsBalanced w)
