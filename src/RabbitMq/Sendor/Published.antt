-- ===== src/RabbitMq/Sendor/Published.antt =====
-- bingo/RabbitMQ/handlers: what the senders publish of the messages that they are given.
use bingo_v.Prelude.{
  ◌≡◌, sym, ap, ◌∙◌, Bool, true, false, some, List, [], ◌∷◌, ◌++◌, append-nil, append_assoc, map,
  All, arith,
}
use bingo_v.Bytes.{Bytes}
use bingo_v.MemGuard.{MemGuard}
use bingo_v.Thread.ManyToOne.{ManyToOne, task}
use bingo_v.RabbitMq.SendorCfg as Keys
use bingo_v.RabbitMq.SendorCfg.{RbSendorCfg, RbSendorCfgValue}
use bingo_v.RabbitMq.RoutingCfg as Routes
use bingo_v.RabbitMq.RoutingCfg.{RbRoutingSendorCfg, RbRoutingSendorCfgValue}
use bingo_v.RabbitMq.Sendor.{Publish, publish}
use bingo_v.RabbitMq.Sendor.Keyed as Keyed
use bingo_v.RabbitMq.Sendor.Keyed.{KeyedSendor, Packet}
use bingo_v.RabbitMq.Sendor.Routed as Routed
use bingo_v.RabbitMq.Sendor.Routed.{RoutedSendor}
use bingo_v.RabbitMq.Sendor.Simple as Simple
use bingo_v.RabbitMq.Sendor.Routing as Routing
use bingo_v.RabbitMq.Sendor.Delivery.{IsSendable, queued, transfer_all, top_all, send_all, delivers}
use bingo_v.RabbitMq.Sendor.Expected.{
  keyed_value, keyed_packets, routed_value, routed_packets, expected, expected_routed,
  keyed_packets-expected, routed_packets-expected,
}

module _ (accepts : Publish → Bool) (packet : Packet) where
  keyed_send-fields :
      (s : KeyedSendor) (key body : Bytes)
      → ((Keyed.send accepts packet s key body).is_valid ≡ s.is_valid)
        × ((Keyed.send accepts packet s key body).cfg ≡ s.cfg)
        × ((Keyed.send accepts packet s key body).published
            ≡ s.published ++ keyed_value packet body (Keys.get_by_key s.cfg key))
  unfolding Keyed.send publish
  keyed_send-fields s key body = ground (arith, append-nil s.published)

  keyed_send_all :
      (ms : List (Bytes × Bytes)) (s : KeyedSendor)
      → (send_all (Keyed.send accepts packet) s ms).published
        ≡ s.published ++ keyed_packets packet s.cfg ms
  unfolding send_all
  keyed_send_all [] s = sym (append-nil s.published)
  keyed_send_all ((key, body) ∷ ms) s =
      let f = keyed_send-fields s key body in
      keyed_send_all ms (Keyed.send accepts packet s key body)
      ∙ rw (f.1, f.2)
          (append_assoc s.published (keyed_value packet body (Keys.get_by_key s.cfg key))
            (keyed_packets packet s.cfg ms))

module _ (accepts : Publish → Bool) where
  routed_send-fields :
      (s : RoutedSendor) (key body : Bytes)
      → ((Routed.send accepts s key body).is_valid ≡ s.is_valid)
        × ((Routed.send accepts s key body).cfg ≡ s.cfg)
        × ((Routed.send accepts s key body).published
            ≡ s.published
              ++ routed_value
                  (Routes.map_to_routingkey s.cfg key)
                  body
                  (Routes.get_by_key s.cfg key))
  unfolding Routed.send Routed.packet publish
  routed_send-fields s key body = ground (arith, append-nil s.published)

  routed_send_all :
      (ms : List (Bytes × Bytes)) (s : RoutedSendor)
      → (send_all (Routed.send accepts) s ms).published ≡ s.published ++ routed_packets s.cfg ms
  unfolding send_all
  routed_send_all [] s = sym (append-nil s.published)
  routed_send_all ((key, body) ∷ ms) s =
      let f = routed_send-fields s key body in
      routed_send_all ms (Routed.send accepts s key body)
      ∙ rw (f.1, f.2)
          (append_assoc s.published
            (routed_value (Routes.map_to_routingkey s.cfg key) body (Routes.get_by_key s.cfg key))
            (routed_packets s.cfg ms))

-- Messages with a key of 40 bytes at most and without a zero byte, and a body of 2008 bytes at most,
-- given one after the other to a valid simple sender whose thread has not been told to end, are queued
-- in order; and rb_top, called with what was queued, publishes in order the whole body of each message
-- whose key has an entry with a channel: on that channel, to the default exchange, with the routing key
-- of the first entry with the key. It publishes nothing for the other messages.
pub simple_delivers :
    (accepts : Publish → Bool) (ms : List (Bytes × Bytes)) (s t : KeyedSendor)
    (q : ManyToOne MemGuard)
    → s.is_valid ≡ true
    → s.task_queue ≡ some q
    → q.is_thread_exit ≡ false
    → All IsSendable ms
    → t.is_valid ≡ true
    → (gs : List MemGuard) × (transfer_all s ms ≡ some (queued s q (map task gs)))
      × ((t' : KeyedSendor) × (top_all (Simple.rb_top accepts) t gs ≡ some t')
          × (t'.published ≡ t.published ++ expected t.cfg ms))
unfolding Simple.rb_top
simple_delivers accepts ms s t q valid has open_ h valid_t =
    let d =
      delivers (Keyed.send accepts Simple.packet)
        (λ u key body. (keyed_send-fields accepts Simple.packet u key body).0) ms s q valid has
        open_ h in
    (
      d.0,
      d.1,
      (
        send_all (Keyed.send accepts Simple.packet) t ms,
        d.2 t valid_t,
        keyed_send_all accepts Simple.packet ms t
            ∙ ap (◌++◌ t.published) (keyed_packets-expected t.cfg ms),
      ),
    )

-- Messages with a key of 40 bytes at most and without a zero byte, and a body of 2008 bytes at most,
-- given one after the other to a valid routing sender whose thread has not been told to end, are queued
-- in order; and rb_top, called with what was queued, publishes in order the whole body of each message
-- whose key has a pair in the configuration and whose value has a channel: on that channel, to the
-- exchange of the value, with the routing key of the first pair with the key. It publishes nothing for
-- the other messages.
pub routing_delivers :
    (accepts : Publish → Bool) (ms : List (Bytes × Bytes)) (s t : RoutedSendor)
    (q : ManyToOne MemGuard)
    → s.is_valid ≡ true
    → s.task_queue ≡ some q
    → q.is_thread_exit ≡ false
    → All IsSendable ms
    → t.is_valid ≡ true
    → (gs : List MemGuard) × (transfer_all s ms ≡ some (queued s q (map task gs)))
      × ((t' : RoutedSendor) × (top_all (Routing.rb_top accepts) t gs ≡ some t')
          × (t'.published ≡ t.published ++ expected_routed t.cfg ms))
unfolding Routing.rb_top
routing_delivers accepts ms s t q valid has open_ h valid_t =
    let d =
      delivers (Routed.send accepts) (λ u key body. (routed_send-fields accepts u key body).0) ms s
        q valid has open_ h in
    (
      d.0,
      d.1,
      (
        send_all (Routed.send accepts) t ms,
        d.2 t valid_t,
        routed_send_all accepts ms t ∙ ap (◌++◌ t.published) (routed_packets-expected t.cfg ms),
      ),
    )
