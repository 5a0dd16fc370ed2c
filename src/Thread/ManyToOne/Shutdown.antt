-- ===== src/Thread/ManyToOne/Shutdown.antt =====
-- bingo/thread/many_to_one.h: the destructor and the end of svc.
use bingo_v.Prelude.{
  ℕ, zero, suc, ◌+◌, ◌*◌, ◌≤◌, ◌≡◌, ◌≢◌, refl, Bool, true, List, [], ◌∷◌, ◌++◌, arith, length,
  if◌then◌else◌, some, Bool-cases, inl, inr,
}
use bingo_v.ErrorWhat.{Status, success, failure, error_what}
use bingo_v.Thread.ManyToOne.{
  Message, task, exit_thread, Place, looping, holding, returned, ManyToOne, put, take_turn, handle,
  svc_step, send_exit,
}
use bingo_v.Thread.ManyToOne.Order.{has_exit, has_exit-append}

module _ {ℓ} {A : Type ℓ} where
  pub svc_steps : ℕ → ManyToOne A → ManyToOne A
  svc_steps zero q = q
  svc_steps (suc n) q = svc_steps n (svc_step q)

  abbrev pub steps_at : Place A → ℕ
  steps_at looping = 1
  steps_at (holding m) = 2
  steps_at returned = 0

  abbrev pub will_return : ManyToOne A → Bool
  will_return q = if q.is_thread_exit then true else has_exit q.queue

  -- What svc still has to do.
  abbrev pub left : ManyToOne A → ℕ
  left q = 2 * length q.queue + steps_at q.place

  left-step :
      (q : ManyToOne A) (p : Place A) (ms : List (Message A))
      → q.place ≡ p
      → q.queue ≡ ms
      → will_return q ≡ true
      → q.place ≢ returned
      → (will_return (svc_step q) ≡ true) × (suc (left (svc_step q)) ≤ left q)
  unfolding svc_step take_turn handle
  left-step q looping [] e f h n = ground arith
  left-step q looping (task a ∷ ms) e f h n = ground arith
  left-step q looping (exit_thread ∷ ms) e f h n = ground arith
  left-step q (holding (task a)) ms e f h n = ground arith
  left-step q (holding exit_thread) ms e f h n = ground arith
  left-step q returned ms e f h n = absurd (n e)

  svc_steps-stay : (n : ℕ) (q : ManyToOne A) → q.place ≡ returned → svc_steps n q ≡ q
  unfolding svc_steps svc_step
  svc_steps-stay zero q e = refl
  svc_steps-stay (suc n) q e = simp e (svc_steps-stay n q e)

  svc_steps-at :
      (n : ℕ) (q : ManyToOne A) (p : Place A)
      → q.place ≡ p
      → will_return q ≡ true
      → left q ≤ n
      → (svc_steps n q).place ≡ returned
  unfolding svc_steps
  svc_steps-at n q returned e h le = rw (svc_steps-stay n q e) e
  svc_steps-at zero q p e h le = ground arith
  svc_steps-at (suc n) q p e h le =
      let (h', less) = left-step q p q.queue e refl h (ground arith) in
      svc_steps-at n (svc_step q) (svc_step q).place refl h' (omega arith)

  -- svc with an exit message taken or in the queue returns within as many steps as are left: two for
  -- each message, and at most two more.
  pub svc_steps-returned :
      (n : ℕ) (q : ManyToOne A)
      → will_return q ≡ true
      → left q ≤ n
      → (svc_steps n q).place ≡ returned
  svc_steps-returned n q h le = svc_steps-at n q q.place refl h le

  -- The destructor ends, whatever svc is doing: one round of its loop is enough, after which an exit
  -- message is in the queue or has been seen, and svc returns within the steps that are left, so that
  -- join comes back.
  pub send_exit-returned :
      (n : ℕ) (q : ManyToOne A)
      → (q' : ManyToOne A) × (st : Status) × (send_exit (suc n) q error_what ≡ some (q', st))
        × ((svc_steps (left q') q').place ≡ returned)
  unfolding send_exit put
  send_exit-returned n q = elim (Bool-cases q.is_thread_exit) [
    | inl seen ↦
        (q, failure, ground arith, svc_steps-returned (left q) q (ground arith) (omega arith))
    | inr open_still ↦
        let q' = record q { queue = q.queue ++ (exit_thread ∷ []) } in
        (
          q',
          success,
          ground arith,
          svc_steps-returned (left q') q'
              (ground (arith, has_exit-append q.queue (exit_thread ∷ []))) (omega arith),
        )
  ]
