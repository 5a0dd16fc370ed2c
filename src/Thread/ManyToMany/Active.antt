-- ===== src/Thread/ManyToMany/Active.antt =====
-- bingo/thread/many_to_many.h: the counter of active threads, and the way of a message through the
-- threads.
use mathlib.Core.List.{Perm, perm_middle, perm_append_comm, perm_append_singleton}
use mathlib.Core.List.Perm
use bingo_v.Prelude.{
  ℕ, zero, suc, ◌+◌, ◌≤◌, ◌≡◌, refl, sym, ◌∙◌, ap, Option, none, some, List, [], ◌∷◌, ◌++◌, arith,
  get_elem?, set, replicate, length, length-replicate, ◌==◌, append_assoc, append-nil,
}
use bingo_v.ErrorWhat.{ErrorWhat, error_what}
use bingo_v.Thread.ManyToOne.{Message, task, exit_thread, Place, looping, holding, returned}
use bingo_v.Thread.ManyToOne.Order.{tasks, tasks-append}
use bingo_v.Thread.ManyToMany.{
  ManyToMany, many_to_many, put, handle, svc_step, svc_at, take_turn, destroy_step, Event, puts,
  turn, destroys, step, steps,
}

module _ {ℓ} {A : Type ℓ} where
  abbrev pub gone : Place A → ℕ
  gone returned = 1
  gone _ = 0

  -- The threads that have returned.
  abbrev pub returned_count : List (Place A) → ℕ
  returned_count [] = 0
  returned_count (p ∷ ps) = gone p + returned_count ps

  -- The tasks that the threads hold.
  abbrev pub hands : List (Place A) → List A
  hands [] = []
  hands (holding (task a) ∷ ps) = a ∷ hands ps
  hands (_ ∷ ps) = hands ps

  pub returned_count-le : (ps : List (Place A)) → returned_count ps ≤ length ps
  returned_count-le [] = omega arith
  returned_count-le (looping ∷ ps) = omega (arith, returned_count-le ps)
  returned_count-le (holding m ∷ ps) = omega (arith, returned_count-le ps)
  returned_count-le (returned ∷ ps) = omega (arith, returned_count-le ps)

  returned_count-set :
      (ps : List (Place A)) (i : ℕ) (p p' : Place A)
      → get_elem? ps i ≡ some p
      → returned_count (set ps i p') + gone p ≡ returned_count ps + gone p'
  returned_count-set [] i p p' e = cc
  returned_count-set (x ∷ ps) zero p p' e = ground arith
  returned_count-set (x ∷ ps) (suc i) p p' e = omega (arith, returned_count-set ps i p p' e)

  length-set : (ps : List (Place A)) (i : ℕ) (p : Place A) → length (set ps i p) ≡ length ps
  length-set [] i p = refl
  length-set (x ∷ ps) zero p = refl
  length-set (x ∷ ps) (suc i) p = ap suc (length-set ps i p)

  abbrev hand : Place A → List A
  hand p = hands (p ∷ [])

  hands-cons : (p : Place A) (ps : List (Place A)) → hands (p ∷ ps) ≡ hand p ++ hands ps
  hands-cons looping ps = refl
  hands-cons (holding (task a)) ps = refl
  hands-cons (holding exit_thread) ps = refl
  hands-cons returned ps = refl

  swap_front : (xs ys zs : List A) → Perm (xs ++ (ys ++ zs)) (ys ++ (xs ++ zs))
  swap_front xs ys zs =
      rw (sym (append_assoc xs ys zs), sym (append_assoc ys xs zs))
        (Perm.append_right zs (perm_append_comm xs ys))

  -- What was in the hand of thread i comes out of the hands, and what it has now goes in.
  hands-set-perm :
      (ps : List (Place A)) (i : ℕ) (p p' : Place A)
      → get_elem? ps i ≡ some p
      → Perm (hand p ++ hands (set ps i p')) (hand p' ++ hands ps)
  hands-set-perm [] i p p' e = cc
  hands-set-perm (x ∷ ps) zero p p' e =
      let same : x ≡ p = ground (arith, e) in
      rw (hands-cons p' ps, hands-cons x ps, same) (swap_front (hand p) (hand p') (hands ps))
  hands-set-perm (x ∷ ps) (suc i) p p' e =
      rw (hands-cons x (set ps i p'), hands-cons x ps)
        (Perm.trans (swap_front (hand p) (hand x) (hands (set ps i p'))) (
          Perm.trans (Perm.append_left (hand x) (hands-set-perm ps i p p' e))
            (swap_front (hand x) (hand p') (hands ps))))

  pub record Inv (n : ℕ) (q : ManyToMany A) : Type ℓ where
    pub sized : length q.threads ≡ n
    pub counted : q.thread_active_num + returned_count q.threads ≡ n
    pub told : q.is_thread_exit ≡ (q.thread_active_num == 0)
    pub kept : q.accepted ≡ q.taken ++ q.queue
    pub handed : Perm (q.handled ++ hands q.threads) (tasks q.taken)

  -- While a thread loops, the object has not been told to exit.
  not_told :
      (n : ℕ) (q : ManyToMany A) (i : ℕ)
      → get_elem? q.threads i ≡ some looping
      → Inv n q
      → 1 ≤ q.thread_active_num
  not_told n q i e v = omega (
    arith,
    v.counted,
    v.sized,
    returned_count-set q.threads i looping returned e,
    returned_count-le (set q.threads i returned),
    length-set q.threads i returned,
  )

  take_turn-Inv :
      (n : ℕ) (q : ManyToMany A) (i : ℕ) (ms : List (Message A))
      → get_elem? q.threads i ≡ some looping
      → q.queue ≡ ms
      → Inv n q
      → Inv n (take_turn q i ms)
  unfolding take_turn
  take_turn-Inv n q i [] e f v = ground (arith, not_told n q i e v)
  take_turn-Inv n q i (task a ∷ ms) e f v = record {
    sized = length-set q.threads i (holding (task a)) ∙ v.sized;
    counted = omega (arith, returned_count-set q.threads i looping (holding (task a)) e, v.counted);
    told = v.told;
    kept = v.kept ∙ rw f (sym (append_assoc q.taken (task a ∷ []) ms));
    handed = rw tasks-append (
        Perm.trans
          (Perm.append_left q.handled (hands-set-perm q.threads i looping (holding (task a)) e))
          (Perm.trans (perm_middle q.handled (hands q.threads)) (
            Perm.trans (Perm.cons a v.handed)
              (Perm.symm (perm_append_singleton a (tasks q.taken))))));
  }
  take_turn-Inv n q i (exit_thread ∷ ms) e f v = record {
    sized = length-set q.threads i returned ∙ v.sized;
    counted = omega (arith, returned_count-set q.threads i looping returned e, not_told n q i e v);
    told = refl;
    kept = v.kept ∙ rw f (sym (append_assoc q.taken (exit_thread ∷ []) ms));
    handed =
        rw (tasks-append, append-nil)
          (Perm.trans (Perm.append_left q.handled (hands-set-perm q.threads i looping returned e))
            v.handed);
  }

  handle-Inv :
      (n : ℕ) (q : ManyToMany A) (i : ℕ) (m : Message A)
      → get_elem? q.threads i ≡ some (holding m)
      → Inv n q
      → Inv n (handle q i m)
  unfolding handle
  handle-Inv n q i (task a) e v = record {
    sized = length-set q.threads i looping ∙ v.sized;
    counted = omega (arith, returned_count-set q.threads i (holding (task a)) looping e, v.counted);
    told = v.told;
    kept = v.kept;
    handed = rw append_assoc (
        Perm.trans
          (Perm.append_left q.handled (hands-set-perm q.threads i (holding (task a)) looping e))
          v.handed);
  }
  handle-Inv n q i exit_thread e v = record {
    sized = length-set q.threads i looping ∙ v.sized;
    counted =
        omega (arith, returned_count-set q.threads i (holding exit_thread) looping e, v.counted);
    told = v.told;
    kept = v.kept;
    handed =
        Perm.trans
          (Perm.append_left q.handled (hands-set-perm q.threads i (holding exit_thread) looping e))
          v.handed;
  }

  svc_at-Inv :
      (n : ℕ) (q : ManyToMany A) (i : ℕ) (p : Option (Place A))
      → get_elem? q.threads i ≡ p
      → Inv n q
      → Inv n (svc_at q i p)
  unfolding svc_at
  svc_at-Inv n q i none e v = v
  svc_at-Inv n q i (some looping) e v = take_turn-Inv n q i q.queue e refl v
  svc_at-Inv n q i (some (holding m)) e v = handle-Inv n q i m e v
  svc_at-Inv n q i (some returned) e v = v

  pub put-Inv :
      (n : ℕ) (q : ManyToMany A) (m : Message A) (e : ErrorWhat) → Inv n q → Inv n (put q m e).0
  unfolding put
  put-Inv n q m e v = ground (arith, append_assoc q.taken q.queue (m ∷ []))

  pub destroy_step-Inv : (n : ℕ) (q : ManyToMany A) → Inv n q → Inv n (destroy_step q)
  unfolding destroy_step
  destroy_step-Inv n q v = ground (arith, put-Inv n q exit_thread error_what v)

  pub steps-Inv : (n : ℕ) (q : ManyToMany A) (es : List (Event A)) → Inv n q → Inv n (steps q es)
  unfolding steps step svc_step
  steps-Inv n q [] v = v
  steps-Inv n q (puts m ∷ es) v = steps-Inv n (step q (puts m)) es (put-Inv n q m error_what v)
  steps-Inv n q (turn i ∷ es) v =
      steps-Inv n (step q (turn i)) es (svc_at-Inv n q i (get_elem? q.threads i) refl v)
  steps-Inv n q (destroys ∷ es) v = steps-Inv n (step q destroys) es (destroy_step-Inv n q v)

  returned_count-replicate :
      (n : ℕ) (ps : List (Place A)) → ps ≡ replicate n looping → returned_count ps ≡ 0
  returned_count-replicate zero ps e = rw e
  returned_count-replicate (suc n) ps e =
      rw e (omega (arith, returned_count-replicate n (replicate n looping) refl))

  hands-replicate : (n : ℕ) (ps : List (Place A)) → ps ≡ replicate n looping → hands ps ≡ []
  hands-replicate zero ps e = rw e
  hands-replicate (suc n) ps e = rw e (hands-replicate n (replicate n looping) refl)

  pub many_to_many-Inv : (n : ℕ) → 1 ≤ n → Inv n (many_to_many n)
  unfolding many_to_many
  many_to_many-Inv n h = record {
    sized = length-replicate n looping;
    counted = omega (arith, returned_count-replicate n (replicate n looping) refl);
    told = ground arith;
    kept = refl;
    handed = rw (hands-replicate n (replicate n looping) refl) Perm.nil;
  }

  -- In every history of puts, thread steps and destructor steps of an object with at least one
  -- thread: thread_active_num_ is the number of threads that have not returned, and
  -- is_thread_exit_ holds exactly when it is 0; the accepted messages are, in order, those taken and
  -- those in the queue; and the tasks taken are, up to order, those handled and those that a thread
  -- holds, each as often.
  pub active_and_handed :
      (n : ℕ) (es : List (Event A))
      → 1 ≤ n
      → let q = steps (many_to_many n) es in
        (q.thread_active_num + returned_count q.threads ≡ n)
        × (q.is_thread_exit ≡ (q.thread_active_num == 0))
        × (q.accepted ≡ q.taken ++ q.queue)
        × Perm (q.handled ++ hands q.threads) (tasks q.taken)
  active_and_handed n es h =
      let v = steps-Inv n (many_to_many n) es (many_to_many-Inv n h) in
      (v.counted, v.told, v.kept, v.handed)
