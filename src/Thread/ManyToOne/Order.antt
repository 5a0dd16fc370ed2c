-- ===== src/Thread/ManyToOne/Order.antt =====
-- bingo/thread/many_to_one.h: the way of an accepted message through the queue.
use bingo_v.Prelude.{
  ◌≡◌, refl, sym, ◌∙◌, ap, Bool, true, false, List, [], ◌∷◌, ◌++◌, arith, append-nil, append_assoc,
  if◌then◌else◌,
}
use bingo_v.ErrorWhat.{ErrorWhat, failure}
use bingo_v.Thread.ManyToOne.{
  Message, task, exit_thread, Place, looping, holding, returned, Run, Event, puts, turn, put,
  take_turn, handle, svc_step, svc_at, note, step, steps, start,
}

module _ {ℓ} {A : Type ℓ} where
  -- The message that the thread of svc holds.
  abbrev pub in_hand : Place A → List (Message A)
  in_hand (holding m) = m ∷ []
  in_hand _ = []

  -- The tasks among the messages.
  abbrev pub tasks : List (Message A) → List A
  tasks [] = []
  tasks (task a ∷ ms) = a ∷ tasks ms
  tasks (exit_thread ∷ ms) = tasks ms

  pub tasks-append : (xs ys : List (Message A)) → tasks (xs ++ ys) ≡ tasks xs ++ tasks ys
  tasks-append [] ys = refl
  tasks-append (task a ∷ xs) ys = ap (◌∷◌ a) (tasks-append xs ys)
  tasks-append (exit_thread ∷ xs) ys = tasks-append xs ys

  -- An exit message is among them.
  abbrev pub has_exit : List (Message A) → Bool
  has_exit [] = false
  has_exit (task a ∷ ms) = has_exit ms
  has_exit (exit_thread ∷ ms) = true

  pub has_exit-append :
      (xs ys : List (Message A)) → has_exit (xs ++ ys) ≡ (if has_exit xs then true else has_exit ys)
  has_exit-append [] ys = refl
  has_exit-append (task a ∷ xs) ys = has_exit-append xs ys
  has_exit-append (exit_thread ∷ xs) ys = refl

  pub record Inv (r : Run A) : Type ℓ where
    pub kept : r.accepted ≡ r.state.freed ++ (in_hand r.state.place ++ r.state.queue)
    pub handled_all : r.state.handled ≡ tasks r.state.freed
    pub exit_seen : r.state.is_thread_exit ≡ has_exit (r.state.freed ++ in_hand r.state.place)
    pub returns : r.state.place ≡ returned → (r.state.queue ≡ []) × (r.state.is_thread_exit ≡ true)

  take_turn-Inv :
      (r : Run A) (q : List (Message A))
      → r.state.place ≡ looping
      → r.state.queue ≡ q
      → Inv r
      → Inv (record r { state = take_turn r.state q })
  unfolding take_turn
  take_turn-Inv r [] e f v = ground (arith, append-nil r.state.freed)
  take_turn-Inv r (task a ∷ rest) e f v =
      ground (arith, append-nil r.state.freed, has_exit-append r.state.freed (task a ∷ []))
  take_turn-Inv r (exit_thread ∷ rest) e f v =
      ground (arith, append-nil r.state.freed, has_exit-append r.state.freed (exit_thread ∷ []))

  handle-Inv :
      (r : Run A) (m : Message A)
      → r.state.place ≡ holding m
      → Inv r
      → Inv (record r { state = handle r.state m })
  unfolding handle
  handle-Inv r (task a) e v = ground (
    arith,
    tasks-append r.state.freed (task a ∷ []),
    append_assoc r.state.freed (task a ∷ []) r.state.queue,
    append-nil (r.state.freed ++ task a ∷ []),
  )
  handle-Inv r exit_thread e v = ground (
    arith,
    tasks-append r.state.freed (exit_thread ∷ []),
    append_assoc r.state.freed (exit_thread ∷ []) r.state.queue,
    append-nil (r.state.freed ++ exit_thread ∷ []),
    append-nil (tasks r.state.freed),
  )

  svc_at-Inv :
      (r : Run A) (p : Place A)
      → r.state.place ≡ p
      → Inv r
      → Inv (record r { state = svc_at r.state p })
  unfolding svc_at
  svc_at-Inv r looping e v = take_turn-Inv r r.state.queue e refl v
  svc_at-Inv r (holding m) e v = handle-Inv r m e v
  svc_at-Inv r returned e v = v

  put-Inv : (e : ErrorWhat) (r : Run A) (m : Message A) → Inv r → Inv (note r m (put r.state m e))
  unfolding note put
  put-Inv e r m v = ground (
    arith,
    append_assoc r.state.freed (in_hand r.state.place ++ r.state.queue) (m ∷ []),
    append_assoc (in_hand r.state.place) r.state.queue (m ∷ []),
  )

  steps-Inv : (e : ErrorWhat) (r : Run A) (evs : List (Event A)) → Inv r → Inv (steps e r evs)
  unfolding steps step svc_step
  steps-Inv e r [] v = v
  steps-Inv e r (puts m ∷ evs) v = steps-Inv e (step e r (puts m)) evs (put-Inv e r m v)
  steps-Inv e r (turn ∷ evs) v = steps-Inv e (step e r turn) evs (svc_at-Inv r r.state.place refl v)

  start-Inv : Inv (start {A = A})
  unfolding start
  start-Inv = record { kept = refl; handled_all = refl; exit_seen = refl; returns = λ e. cc }

  -- In every history of puts and steps of svc: the messages that put has accepted are, in order,
  -- those that svc is done with, the one that it holds and those in the queue, and f_ was called
  -- with exactly the tasks among those it is done with, in that order.
  pub accepted_in_order :
      (e : ErrorWhat) (evs : List (Event A))
      → let r = steps e start evs in
        (r.accepted ≡ r.state.freed ++ (in_hand r.state.place ++ r.state.queue))
        × (r.state.handled ≡ tasks r.state.freed)
  accepted_in_order e evs = let v = steps-Inv e start evs start-Inv in (v.kept, v.handled_all)

  returned_facts :
      (r : Run A)
      → Inv r
      → r.state.place ≡ returned
      → (r.state.handled ≡ tasks r.accepted)
        × (has_exit r.accepted ≡ true)
        × (r.state.is_thread_exit ≡ true)
  returned_facts r v back =
      let (empty, gone) = v.returns back in
      let all : r.accepted ≡ r.state.freed = v.kept ∙ rw (back, empty) (append-nil r.state.freed) in
      (
        v.handled_all ∙ ap tasks (sym all),
        rw (all, sym (append-nil r.state.freed)) (ground (arith, v.exit_seen)),
        gone,
      )

  -- When svc has returned, in any history: f_ was called with every task that put ever accepted, in
  -- order, an exit message was accepted, and put refuses every further message with error 0x38.
  pub returned_means_done :
      (e : ErrorWhat) (evs : List (Event A)) (m : Message A)
      → (steps e start evs).state.place ≡ returned
      → let r = steps e start evs in
        (r.state.handled ≡ tasks r.accepted)
        × (has_exit r.accepted ≡ true)
        × (put r.state m e
            ≡ (r.state, record { number = 0x38; message = "thread has exit!" }, failure))
  returned_means_done e evs m back =
      let (done, seen, gone) =
        returned_facts (steps e start evs) (steps-Inv e start evs start-Inv) back in
      (done, seen, unfold put in rw gone)
