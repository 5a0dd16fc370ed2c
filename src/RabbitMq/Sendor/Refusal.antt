-- ===== src/RabbitMq/Sendor/Refusal.antt =====
-- bingo/RabbitMQ/handlers: which messages transfer_data_by_key queues.
use bingo_v.Prelude.{
  ◌+◌, ◌≤◌, ◌≡◌, refl, true, false, some, [], ◌∷◌, ◌++◌, if◌then◌else◌, arith, length, ◌<◌, ◌⊎◌,
  inl, inr, ltb, Bool-cases,
}
use bingo_v.Bytes.{Bytes}
use bingo_v.ErrorWhat.{error_what}
use bingo_v.MemGuard.{MemGuard, mem_guard, contents}
use bingo_v.MemGuard.Bounds.{mem_guard-IsValid, copy_lem}
use bingo_v.Thread.ManyToOne.{ManyToOne, task, put}
use bingo_v.RabbitMq.Config.{mapkey_max_size}
use bingo_v.RabbitMq.Sendor.{
  Sendor, message_max_size, send_message, transfer_by_key, log_error, LogLine,
  size_of_key_more_than_40, create_task_data_error, put_data_error,
}
use bingo_v.RabbitMq.Sendor.Package.{layout, make_message-layout, length-layout}
use bingo_v.RabbitMq.Sendor.Delivery.{queued, transfer-put}

module _ {Cfg Value : Type 0} where
  -- Why transfer_data_by_key does not queue a message.
  abbrev pub IsRefused : Sendor Cfg Value → ManyToOne MemGuard → Bytes → Bytes → Type 0
  IsRefused s q key body =
      (s.is_valid ≡ false)
      ⊎ (mapkey_max_size < length key)
      ⊎ (message_max_size < mapkey_max_size + length body)
      ⊎ (q.is_thread_exit ≡ true)

  abbrev refusal : Sendor Cfg Value → Bytes → Bytes → Sendor Cfg Value
  refusal s key body =
      if s.is_valid
      then if ltb mapkey_max_size (length key)
        then log_error size_of_key_more_than_40 s
        else if ltb message_max_size (mapkey_max_size + length body)
        then record (log_error (create_task_data_error 0x70) s) { deleted = s.deleted + 1 }
        else record (log_error (put_data_error 0x38) s) { deleted = s.deleted + 1 }
      else s

  transfer_refused :
      (s : Sendor Cfg Value) (q : ManyToOne MemGuard) (key body : Bytes)
      → s.task_queue ≡ some q
      → IsRefused s q key body
      → transfer_by_key s key body ≡ some (refusal s key body)
  unfolding transfer_by_key send_message put mem_guard
  transfer_refused s q key body has h = elim (Bool-cases (ltb mapkey_max_size (length key))) [
    | inl long ↦ ground arith
    | inr short ↦
        elim (copy_lem (mem_guard message_max_size) (layout key body) error_what
          (mem_guard-IsValid message_max_size (omega arith))) [
            | inl (fits, (g, copied, v, e, same_size)) ↦ ground (
              arith,
              make_message-layout key body (ground arith),
              length-layout key body (ground arith),
              copied,
            )
            | inr (over, refused) ↦ ground (
              arith,
              make_message-layout key body (ground arith),
              length-layout key body (ground arith),
              refused,
            )
          ]
  ]

  -- What a refused message leaves: nothing has happened without a valid configuration; otherwise one line
  -- is logged, if there is a logger, and the task is deleted that was made for a key that fits.
  abbrev pub IsReported :
      Sendor Cfg Value → ManyToOne MemGuard → Bytes → Bytes → Sendor Cfg Value → Type 0
  IsReported s q key body s' =
      ((s.is_valid ≡ false) × (s' ≡ s))
      ⊎ ((s.is_valid ≡ true)
          × ((l : LogLine) × (s' ≡ record s { log = s'.log; deleted = s'.deleted })
              × (s'.log ≡ (if s.has_logger then s.log ++ (l ∷ []) else s.log))
              × (((mapkey_max_size < length key)
                    × (l ≡ size_of_key_more_than_40)
                    × (s'.deleted ≡ s.deleted))
                  ⊎ ((length key ≤ mapkey_max_size)
                      × (message_max_size < mapkey_max_size + length body)
                      × (l ≡ create_task_data_error 0x70)
                      × (s'.deleted ≡ s.deleted + 1))
                  ⊎ ((length key ≤ mapkey_max_size)
                      × (mapkey_max_size + length body ≤ message_max_size)
                      × (q.is_thread_exit ≡ true)
                      × (l ≡ put_data_error 0x38)
                      × (s'.deleted ≡ s.deleted + 1)))))

  refusal-IsReported :
      (s : Sendor Cfg Value) (q : ManyToOne MemGuard) (key body : Bytes)
      → IsRefused s q key body
      → IsReported s q key body (refusal s key body)
  refusal-IsReported s q key body h = elim (Bool-cases s.is_valid) [
    | inr invalid ↦ inl (invalid, rw invalid refl)
    | inl valid ↦ elim (Bool-cases (ltb mapkey_max_size (length key))) [
      | inl long ↦
          rw (valid, long)
            (inr (
              refl,
              (size_of_key_more_than_40, refl, refl, inl (ground (arith, long), refl, refl)),
            ))
      | inr short ↦ elim (Bool-cases (ltb message_max_size (mapkey_max_size + length body))) [
        | inl big ↦
            rw (valid, short, big)
              (inr (
                refl,
                (
                  create_task_data_error 0x70,
                  refl,
                  refl,
                  inr (inl (ground (arith, short), ground (arith, big), refl, refl)),
                ),
              ))
        | inr fits ↦
            rw (valid, short, fits)
              (inr (
                refl,
                (
                  put_data_error 0x38,
                  refl,
                  refl,
                  inr (
                      inr (
                        ground (arith, short),
                        ground (arith, fits),
                        ground (arith, h, valid, short, fits),
                        refl,
                        refl,
                      )),
                ),
              ))
      ]
    ]
  ]

  -- On a sender whose task has a queue, transfer_data_by_key comes to an end, and either the message is
  -- refused, for one of the four reasons, and the queue and what was published are as before; or none of
  -- the four holds, and one task with the key, zeros up to 40 bytes, and the body is put at the end of
  -- the queue, and nothing else changes.
  pub transfer_by_key_lem :
      (s : Sendor Cfg Value) (q : ManyToOne MemGuard) (key body : Bytes)
      → s.task_queue ≡ some q
      → (s' : Sendor Cfg Value) × (transfer_by_key s key body ≡ some s')
        × ((IsRefused s q key body × IsReported s q key body s')
            ⊎ ((¬ IsRefused s q key body)
                × ((g : MemGuard) × (s' ≡ queued s q (task g ∷ []))
                    × (contents g ≡ layout key body))))
  transfer_by_key_lem s q key body has = elim (Bool-cases s.is_valid) [
    | inr invalid ↦ refused (inl invalid)
    | inl valid ↦ elim (Bool-cases (ltb mapkey_max_size (length key))) [
      | inl long ↦ refused (inr (inl (ground (arith, long))))
      | inr short ↦ elim (Bool-cases (ltb message_max_size (mapkey_max_size + length body))) [
        | inl big ↦ refused (inr (inr (inl (ground (arith, big)))))
        | inr fits ↦ elim (Bool-cases q.is_thread_exit) [
          | inl ended ↦ refused (inr (inr (inr ended)))
          | inr runs ↦
              let (g, sent, is, v) =
                transfer-put s q key body valid has runs (ground (arith, short))
                  (ground (arith, fits)) in
              (
                queued s q (task g ∷ []),
                sent,
                inr (λ r. ground (arith, r, valid, short, fits, runs), (g, refl, is)),
              )
        ]
      ]
    ]
  ]
    where
      refused :
          IsRefused s q key body
          → (s' : Sendor Cfg Value) × (transfer_by_key s key body ≡ some s')
            × ((IsRefused s q key body × IsReported s q key body s')
                ⊎ ((¬ IsRefused s q key body)
                    × ((g : MemGuard) × (s' ≡ queued s q (task g ∷ []))
                        × (contents g ≡ layout key body))))
      refused h = (
        refusal s key body,
        transfer_refused s q key body has h,
        inl (h, refusal-IsReported s q key body h),
      )
