-- ===== src/Thread/ManyToMany/Deadlock.antt =====
-- bingo/thread/many_to_many.h: the destructor, which reads thread_active_num_ while the threads
-- lower it.
use bingo_v.Prelude.{
  ℕ, zero, suc, ◌+◌, ◌≤◌, ◌<◌, ◌≡◌, ◌≢◌, refl, sym, ◌∙◌, ap, false, Option, none, some, List, [],
  ◌∷◌, ◌++◌, All, arith, get_elem?, set, replicate,
}
use native.Mathlib.Decide.{dec_lt}
use bingo_v.ErrorWhat.{Status, success, failure}
use bingo_v.Thread.ManyToOne.{Message, Place, looping, holding, returned}
use bingo_v.Thread.ManyToMany.{
  round, joining, ManyToMany, many_to_many, put, svc_step, svc_at, destroy_step, all_returned,
  Event, puts, turn, destroys, step, steps,
}

module _ {ℓ} {A : Type ℓ} where
  -- Nobody works: a thread waits on the empty queue or has returned.
  abbrev pub IsParked : Place A → Type 0
  IsParked (holding m) = ⊥
  IsParked _ = Unit

  -- The destructor is in join_all, and no thread can go on.
  pub record IsStuck (q : ManyToMany A) : Type ℓ where
    pub waits : q.destructor ≡ joining
    pub empty : q.queue ≡ []
    pub not_told : q.is_thread_exit ≡ false
    pub some_left : all_returned q.threads ≡ false
    pub parked : (i : ℕ) (m : Message A) → get_elem? q.threads i ≢ some (holding m)

  -- What is no put: with the object being destroyed there is no other caller.
  abbrev pub IsInner : Event A → Type 0
  IsInner (puts m) = ⊥
  IsInner _ = Unit

  svc_at-stuck :
      (q : ManyToMany A) (i : ℕ) (p : Option (Place A))
      → get_elem? q.threads i ≡ p
      → IsStuck q
      → svc_at q i p ≡ q
  unfolding svc_at
  svc_at-stuck q i none e v = refl
  svc_at-stuck q i (some looping) e v = ground arith
  svc_at-stuck q i (some (holding m)) e v = absurd (v.parked i m e)
  svc_at-stuck q i (some returned) e v = refl

  destroy_at-stuck : (q : ManyToMany A) → IsStuck q → destroy_step q ≡ q
  unfolding destroy_step
  destroy_at-stuck q v = ground arith

  step-stuck : (q : ManyToMany A) (e : Event A) → IsInner e → IsStuck q → step q e ≡ q
  unfolding step svc_step
  step-stuck q (puts m) inner v = absurd inner
  step-stuck q (turn i) inner v = svc_at-stuck q i (get_elem? q.threads i) refl v
  step-stuck q destroys inner v = destroy_at-stuck q v

  -- In a stuck state, with the destructor in join_all, the queue empty and no thread able to go on, no
  -- steps of the threads and of the destructor, however many, change anything.
  pub steps-stuck :
      (q : ManyToMany A) (es : List (Event A)) → All IsInner es → IsStuck q → steps q es ≡ q
  unfolding steps
  steps-stuck q [] inner v = refl
  steps-stuck q (e ∷ es) inner v =
      ap (λ p. steps p es) (step-stuck q e inner.0 v) ∙ steps-stuck q es inner.1 v

  -- k threads have returned, m still loop.
  abbrev crew : ℕ → ℕ → List (Place A)
  crew k m = replicate k returned ++ replicate m looping

  get_elem?-crew : (k m : ℕ) → get_elem? (crew k (suc m)) k ≡ some looping
  get_elem?-crew zero m = refl
  get_elem?-crew (suc k) m = get_elem?-crew k m

  set-crew : (k m : ℕ) → set (crew k (suc m)) k returned ≡ crew (suc k) m
  set-crew zero m = refl
  set-crew (suc k) m = ap (◌∷◌ returned) (set-crew k m)

  all_returned-crew :
      (k m : ℕ) (ps : List (Place A)) → ps ≡ crew k (suc m) → all_returned ps ≡ false
  all_returned-crew zero m ps e = rw e
  all_returned-crew (suc k) m ps e = rw e (all_returned-crew k m (crew k (suc m)) refl)

  crew-parked : (k m i : ℕ) (x : Message A) → get_elem? (crew k m) i ≢ some (holding x)
  crew-parked zero zero i x e = cc
  crew-parked zero (suc m) zero x e = cc
  crew-parked zero (suc m) (suc i) x e = crew-parked zero m i x e
  crew-parked (suc k) m zero x e = cc
  crew-parked (suc k) m (suc i) x e = crew-parked k m i x e

  -- The destructor has sent k exit messages, each taken at once.
  record Midway (k m : ℕ) (st : Status) (q : ManyToMany A) : Type ℓ where
    at_round : q.destructor ≡ round k st
    empty : q.queue ≡ []
    not_told : q.is_thread_exit ≡ false
    active : q.thread_active_num ≡ m
    crewed : q.threads ≡ crew k m

  Midway-sent :
      (k m : ℕ) (st : Status) (q : ManyToMany A)
      → Midway k (suc m) st q
      → k < suc m
      → 1 ≤ m
      → Midway (suc k) m success (svc_step (destroy_step q) k)
  unfolding svc_step destroy_step put
  Midway-sent k m st q w lt le = ground (arith, get_elem?-crew k m, set-crew k m)

  Midway-IsStuck :
      (k m : ℕ) (q : ManyToMany A)
      → Midway k (suc m) success q
      → suc m ≤ k
      → IsStuck (destroy_step q)
  unfolding destroy_step
  Midway-IsStuck k m q w le = record {
    waits = ground arith;
    empty = ground arith;
    not_told = ground arith;
    some_left = ground (arith, all_returned-crew k m q.threads w.crewed);
    parked = λ i x e. crew-parked k (suc m) i x (ground (arith, e));
  }

  -- The schedule that takes each exit message at once leads to a deadlock.
  reach-IsStuck :
      (m k : ℕ) (st : Status) (q : ManyToMany A)
      → Midway k m st q
      → 1 ≤ m
      → 2 ≤ k + m
      → (1 ≤ k → st ≡ success)
      → (es : List (Event A)) × All IsInner es × IsStuck (steps q es)
  unfolding steps step
  reach-IsStuck zero k st q w one two ok = absurd (omega arith)
  reach-IsStuck (suc m) k st q w one two ok = elim (dec_lt k (suc m)) [
    | yes lt ↦
        let (es, inner, stuck) =
          reach-IsStuck m (suc k) success (svc_step (destroy_step q) k)
            (Midway-sent k m st q w lt (omega arith)) (omega arith) (omega arith) (λ _. refl) in
        (destroys ∷ turn k ∷ es, (tt, (tt, inner)), stuck)
    | no ge ↦ (
      destroys ∷ [],
      (tt, tt),
      Midway-IsStuck k m q (rw (sym (ok (omega arith))) w) (omega arith),
    )
  ]

  -- Whatever the number of threads from two on, the destructor of an idle object can end up in
  -- join_all with an empty queue and a thread that nobody will wake: a history of steps of the
  -- threads and of the destructor alone, without a put, leads there.
  pub destructor_may_hang :
      (n : ℕ) → 2 ≤ n → (es : List (Event A)) × All IsInner es × IsStuck (steps (many_to_many n) es)
  unfolding steps step
  destructor_may_hang n h =
      let (es, inner, stuck) =
        reach-IsStuck n 0 failure (destroy_step (many_to_many n))
          (unfold many_to_many destroy_step in
            record { at_round = refl; empty = refl; not_told = refl; active = refl; crewed = refl })
          (omega arith) (omega arith) (λ k. absurd (omega arith)) in
      (destroys ∷ es, (tt, inner), stuck)
