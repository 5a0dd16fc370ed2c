-- ===== src/RabbitMq/Sendor/Delivery.antt =====
-- bingo/RabbitMQ/handlers: the way of a key and a body from a transfer method to publish.
use bingo_v.Prelude.{
  ◌+◌, ◌≤◌, ◌≡◌, inl, inr, refl, ◌∙◌, ap, true, false, Option, none, some, List, [], ◌∷◌, ◌++◌,
  append-nil, append_assoc, map, All, length, arith,
}
use bingo_v.ErrorWhat.{error_what}
use bingo_v.Bytes.{Bytes, NoZero}
use bingo_v.MemGuard.{MemGuard, mem_guard, contents, IsValid}
use bingo_v.MemGuard.Bounds.{mem_guard-IsValid, copy_lem}
use bingo_v.Thread.ManyToOne.{ManyToOne, Message, task, put}
use bingo_v.RabbitMq.Config.{mapkey_max_size}
use bingo_v.RabbitMq.Sendor.{
  Sendor, message_max_size, take_message, send_message, transfer_by_key, was_copied, was_put,
  top_by, received,
}
use bingo_v.RabbitMq.Sendor.Package.{
  layout, make_message-layout, length-layout, take_message-layout,
}

-- A key of 40 bytes at most without a zero byte, and a body that fits behind it.
abbrev pub IsSendable : Bytes × Bytes → Type 0
IsSendable m =
    (length m.0 ≤ mapkey_max_size) × NoZero m.0 × (mapkey_max_size + length m.1 ≤ message_max_size)

module _ {Cfg Value : Type 0} where
  -- The sender after a task has been queued.
  abbrev pub queued :
      Sendor Cfg Value → ManyToOne MemGuard → List (Message MemGuard) → Sendor Cfg Value
  queued s q ms = record s { task_queue = some (record q { queue = q.queue ++ ms }) }

  pub transfer-put :
      (s : Sendor Cfg Value) (q : ManyToOne MemGuard) (key body : Bytes)
      → s.is_valid ≡ true
      → s.task_queue ≡ some q
      → q.is_thread_exit ≡ false
      → length key ≤ mapkey_max_size
      → mapkey_max_size + length body ≤ message_max_size
      → (g : MemGuard) × (transfer_by_key s key body ≡ some (queued s q (task g ∷ [])))
        × (contents g ≡ layout key body)
        × IsValid g
  unfolding transfer_by_key send_message was_copied was_put put mem_guard
  transfer-put s q key body valid has open_ short fits_in =
      elim (copy_lem (mem_guard message_max_size) (layout key body) error_what
        (mem_guard-IsValid message_max_size (omega arith))) [
          | inl (fits, (g, copied, v, e, same_size)) ↦
              (g, ground (arith, make_message-layout key body short, copied), e, v)
          | inr (over, refused) ↦ absurd (ground (arith, length-layout key body short))
        ]

  transfer-queued :
      (s : Sendor Cfg Value) (q : ManyToOne MemGuard) (key body : Bytes)
      → s.is_valid ≡ true
      → s.task_queue ≡ some q
      → q.is_thread_exit ≡ false
      → IsSendable (key, body)
      → (g : MemGuard) × (transfer_by_key s key body ≡ some (queued s q (task g ∷ [])))
        × (take_message g ≡ some (key, body))
  transfer-queued s q key body valid has open_ h =
      let (g, sent, e, v) = transfer-put s q key body valid has open_ h.0 h.2 in
      (g, sent, take_message-layout g key body h.0 h.1 v e)

module _ {Cfg Value : Type 0} where
  -- Several calls of a transfer method, one after the other.
  unfoldable pub transfer_all : Sendor Cfg Value → List (Bytes × Bytes) → Option (Sendor Cfg Value)
  transfer_all s [] = some s
  transfer_all s ((key, body) ∷ ms) = elim (transfer_by_key s key body) [
    | none ↦ none
    | some s' ↦ transfer_all s' ms
  ]

  -- The thread calls rb_top with one message after the other.
  unfoldable pub top_all :
      (Sendor Cfg Value → MemGuard → Option (Sendor Cfg Value))
      → Sendor Cfg Value
      → List MemGuard
      → Option (Sendor Cfg Value)
  top_all top s [] = some s
  top_all top s (g ∷ gs) = elim (top s g) [ none ↦ none | some s' ↦ top_all top s' gs ]

  transfer_all-cons :
      (s s' : Sendor Cfg Value) (key body : Bytes) (ms : List (Bytes × Bytes))
      → transfer_by_key s key body ≡ some s'
      → transfer_all s ((key, body) ∷ ms) ≡ transfer_all s' ms
  unfolding transfer_all
  transfer_all-cons s s' key body ms e = ground arith

  top_all-cons :
      (top : Sendor Cfg Value → MemGuard → Option (Sendor Cfg Value)) (s s' : Sendor Cfg Value)
      (g : MemGuard) (gs : List MemGuard)
      → top s g ≡ some s'
      → top_all top s (g ∷ gs) ≡ top_all top s' gs
  unfolding top_all
  top_all-cons top s s' g gs e = ground arith

  queued-queued :
      (s : Sendor Cfg Value) (q : ManyToOne MemGuard) (m : Message MemGuard)
      (ms : List (Message MemGuard))
      → queued (queued s q (m ∷ [])) (record q { queue = q.queue ++ (m ∷ []) }) ms
        ≡ queued s q (m ∷ ms)
  queued-queued s q m ms =
      ap (λ l. record s { task_queue = some (record q { queue = l }) })
        (append_assoc q.queue (m ∷ []) ms)

  module _ (send : Sendor Cfg Value → Bytes → Bytes → Sendor Cfg Value) where
    unfoldable pub send_all : Sendor Cfg Value → List (Bytes × Bytes) → Sendor Cfg Value
    send_all s [] = s
    send_all s ((key, body) ∷ ms) = send_all (send s key body) ms

    module _
        (keeps : (s : Sendor Cfg Value) (key body : Bytes)
          → (send s key body).is_valid ≡ s.is_valid) where
      -- Messages that were queued are what rb_top sends.
      abbrev Delivers : Sendor Cfg Value → ManyToOne MemGuard → List (Bytes × Bytes) → Type 0
      Delivers s q ms =
          (gs : List MemGuard) × (transfer_all s ms ≡ some (queued s q (map task gs)))
          × ((t : Sendor Cfg Value)
              → t.is_valid ≡ true
              → top_all (top_by send) t gs ≡ some (send_all t ms))

      queued-nil :
          (s : Sendor Cfg Value) (q : ManyToOne MemGuard)
          → s.task_queue ≡ some q
          → s ≡ queued s q []
      queued-nil s q has = ground (arith, append-nil q.queue)

      top_one :
          (t : Sendor Cfg Value) (g : MemGuard) (key body : Bytes)
          → t.is_valid ≡ true
          → take_message g ≡ some (key, body)
          → top_by send t g ≡ some (send t key body)
      unfolding top_by received
      top_one t g key body valid e = ground arith

      pub delivers :
          (ms : List (Bytes × Bytes)) (s : Sendor Cfg Value) (q : ManyToOne MemGuard)
          → s.is_valid ≡ true
          → s.task_queue ≡ some q
          → q.is_thread_exit ≡ false
          → All IsSendable ms
          → Delivers s q ms
      unfolding transfer_all top_all send_all
      delivers [] s q valid has open_ h = ([], ap some (queued-nil s q has), λ t valid_t. refl)
      delivers ((key, body) ∷ ms) s q valid has open_ h =
          let one = transfer-queued s q key body valid has open_ h.0 in
          let g = one.0 in
          let q' : ManyToOne MemGuard = record q { queue = q.queue ++ (task g ∷ []) } in
          let rest = delivers ms (queued s q (task g ∷ [])) q' valid refl open_ h.1 in
          (
            g ∷ rest.0,
            transfer_all-cons s (queued s q (task g ∷ [])) key body ms one.1
                ∙ rest.1
                ∙ ap some (queued-queued s q (task g) (map task rest.0)),
            λ t valid_t.
                top_all-cons (top_by send) t (send t key body) g rest.0
                  (top_one t g key body valid_t one.2)
                ∙ rest.2 (send t key body) (keeps t key body ∙ valid_t),
          )
