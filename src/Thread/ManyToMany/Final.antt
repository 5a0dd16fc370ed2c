-- ===== src/Thread/ManyToMany/Final.antt =====
-- bingo/thread/many_to_many.h: what is left when the last thread has taken its exit message.
use bingo_v.Prelude.{
  ℕ, zero, suc, ◌≤◌, ◌≡◌, refl, true, Option, none, some, List, [], ◌∷◌, arith, get_elem?, length,
}
use bingo_v.Thread.ManyToOne.{Place, looping, holding, returned}
use bingo_v.Thread.ManyToMany.{
  ManyToMany, many_to_many, put, svc_step, svc_at, destroy_step, Event, puts, turn, destroys, step,
  steps,
}
use bingo_v.Thread.ManyToMany.Active.{
  Inv, returned_count, returned_count-le, destroy_step-Inv, steps-Inv, many_to_many-Inv,
}

module _ {ℓ} {A : Type ℓ} where
  -- All threads have returned.
  all_gone :
      (ps : List (Place A)) (i : ℕ) (p : Place A)
      → returned_count ps ≡ length ps
      → get_elem? ps i ≡ some p
      → p ≡ returned
  all_gone [] i p h e = cc
  all_gone (looping ∷ ps) i p h e = absurd (omega (arith, returned_count-le ps))
  all_gone (holding m ∷ ps) i p h e = absurd (omega (arith, returned_count-le ps))
  all_gone (returned ∷ ps) zero p h e = ground (arith, e)
  all_gone (returned ∷ ps) (suc i) p h e = all_gone ps i p (omega arith) e

  -- The queue and the handled tasks, which nothing changes any more.
  record IsFinal (n : ℕ) (q r : ManyToMany A) : Type ℓ where
    inv : Inv n r
    told : r.is_thread_exit ≡ true
    same_queue : r.queue ≡ q.queue
    same_handled : r.handled ≡ q.handled

  svc_at-final :
      (r : ManyToMany A) (n i : ℕ) (p : Option (Place A))
      → get_elem? r.threads i ≡ p
      → Inv n r
      → r.is_thread_exit ≡ true
      → svc_at r i p ≡ r
  unfolding svc_at
  svc_at-final r n i none e v told = refl
  svc_at-final r n i (some p) e v told = rw (all_gone r.threads i p (ground (arith, v.told)) e)

  step-IsFinal : (n : ℕ) (q r : ManyToMany A) (e : Event A) → IsFinal n q r → IsFinal n q (step r e)
  unfolding step svc_step
  step-IsFinal n q r (puts m) v = unfold put in ground arith
  step-IsFinal n q r (turn i) v =
      rw (svc_at-final r n i (get_elem? r.threads i) refl v.inv v.told) v
  step-IsFinal n q r destroys v = record {
    inv = destroy_step-Inv n r v.inv;
    told = unfold destroy_step in ground arith;
    same_queue = unfold destroy_step in ground arith;
    same_handled = unfold destroy_step in ground arith;
  }

  steps-IsFinal :
      (n : ℕ) (q r : ManyToMany A) (es : List (Event A)) → IsFinal n q r → IsFinal n q (steps r es)
  unfolding steps
  steps-IsFinal n q r [] v = v
  steps-IsFinal n q r (e ∷ es) v = steps-IsFinal n q (step r e) es (step-IsFinal n q r e v)

  -- Once the last exit message is taken, in any history of an object with at least one thread, every
  -- thread has returned, and whatever happens later, the messages that are still in the queue stay
  -- there and no further task is handled: a task that put has accepted behind the last exit message
  -- is lost.
  pub exit_is_final :
      (n : ℕ) (es fs : List (Event A))
      → 1 ≤ n
      → (steps (many_to_many n) es).is_thread_exit ≡ true
      → let q = steps (many_to_many n) es in
        (returned_count q.threads ≡ n)
        × ((steps q fs).queue ≡ q.queue)
        × ((steps q fs).handled ≡ q.handled)
  exit_is_final n es fs h told =
      let q = steps (many_to_many n) es in
      let v = steps-Inv n (many_to_many n) es (many_to_many-Inv n h) in
      let w =
        steps-IsFinal n q q fs
          (record { inv = v; told = told; same_queue = refl; same_handled = refl }) in
      (ground (arith, v.told, v.counted), w.same_queue, w.same_handled)
