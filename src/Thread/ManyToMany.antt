-- ===== src/Thread/ManyToMany.antt =====
-- bingo/thread/many_to_many.h and bingo/thread/thread_data_type.h: one queue that a fixed number of
-- threads read. Each critical section under mu_ is one step, and so is each round of the destructor's
-- loop; f_ and free_message run between two steps. A wait on cond_get_ is a turn that changes nothing.
pub mod Active
pub mod Deadlock
pub mod Final
use bingo_v.Prelude.{
  ℕ, zero, suc, ◌+◌, ◌-◌, Bool, true, false, Option, none, some, List, [], ◌∷◌, ◌++◌, if◌then◌else◌,
  ltb, ◌==◌, get_elem?, set, replicate,
}
use bingo_v.ErrorWhat.{ErrorWhat, Status, success, failure, error_what, err_no, err_message}
use bingo_v.Thread.ManyToOne.{Message, task, exit_thread, Place, looping, holding, returned}

-- Where the destructor stands: not called, at a test `i < thread_active_num_` with the last return
-- code of put, in join_all, or at its end.
pub data Destructor : Type 0 where
  not_called : Destructor
  round : ℕ → Status → Destructor
  joining : Destructor
  ended : Destructor

-- The class many_to_many. `accepted` is what put was called with and has not refused, `taken` is what the threads took from the queue, in order; `handled` is
-- what f_ was called with.
pub record ManyToMany {ℓ} (A : Type ℓ) : Type ℓ where
  pub queue : List (Message A)
  pub is_thread_exit : Bool
  pub thread_active_num : ℕ
  pub threads : List (Place A)
  pub destructor : Destructor
  pub accepted : List (Message A)
  pub taken : List (Message A)
  pub handled : List A

module _ {ℓ} {A : Type ℓ} where
  -- The constructor, with thread_n threads.
  unfoldable pub many_to_many : ℕ → ManyToMany A
  many_to_many n = record {
    queue = [];
    is_thread_exit = false;
    thread_active_num = n;
    threads = replicate n looping;
    destructor = not_called;
    accepted = [];
    taken = [];
    handled = [];
  }

  -- put(data, e_what)
  unfoldable pub put : ManyToMany A → Message A → ErrorWhat → ManyToMany A × ErrorWhat × Status
  put q m e =
      if q.is_thread_exit
      then (q, err_message "thread is exist!" (err_no 0x38 e), failure)
      else (record q { queue = q.queue ++ (m ∷ []); accepted = q.accepted ++ (m ∷ []) }, e, success)

  -- The critical section of svc in thread i: return, wait, leave by an exit message, or pop a task.
  unfoldable pub take_turn : ManyToMany A → ℕ → List (Message A) → ManyToMany A
  take_turn q i [] = if q.is_thread_exit then record q { threads = set q.threads i returned } else q
  take_turn q i (task a ∷ rest) = record q {
    queue = rest;
    threads = set q.threads i (holding (task a));
    taken = q.taken ++ (task a ∷ []);
  }
  take_turn q i (exit_thread ∷ rest) =
      let active = q.thread_active_num - 1 in
      record q {
        queue = rest;
        thread_active_num = active;
        is_thread_exit = active == 0;
        threads = set q.threads i returned;
        taken = q.taken ++ (exit_thread ∷ []);
      }

  -- f_ and free_message in thread i.
  unfoldable pub handle : ManyToMany A → ℕ → Message A → ManyToMany A
  handle q i (task a) = record q {
    threads = set q.threads i looping;
    handled = q.handled ++ (a ∷ []);
  }
  handle q i exit_thread = record q { threads = set q.threads i looping }

  svc_at : ManyToMany A → ℕ → Option (Place A) → ManyToMany A
  unfolding take_turn handle
  svc_at q i none = q
  svc_at q i (some looping) = take_turn q i q.queue
  svc_at q i (some (holding m)) = handle q i m
  svc_at q i (some returned) = q

  -- One step of svc in thread i.
  unfoldable pub svc_step : ManyToMany A → ℕ → ManyToMany A
  unfolding svc_at
  svc_step q i = svc_at q i (get_elem? q.threads i)

  -- All threads have returned.
  abbrev pub all_returned : List (Place A) → Bool
  all_returned [] = true
  all_returned (returned ∷ ps) = all_returned ps
  all_returned (looping ∷ ps) = false
  all_returned (holding m ∷ ps) = false

  -- One round of the loop of ~many_to_many: one exit message; put fails only with 0x38, which ends
  -- the inner loop.
  round_put : ℕ → ManyToMany A × ErrorWhat × Status → ManyToMany A
  round_put i (q, e, st) = record q { destructor = round (i + 1) st }

  destroy_at : ManyToMany A → Destructor → ManyToMany A
  unfolding round_put put
  destroy_at q not_called = record q { destructor = round 0 failure }
  destroy_at q (round i st) =
      if ltb i q.thread_active_num
      then round_put i (put q exit_thread error_what)
      else record q { destructor = elim st [ success ↦ joining | failure ↦ ended ] }
  destroy_at q joining = if all_returned q.threads then record q { destructor = ended } else q
  destroy_at q ended = q

  -- One step of the destructor.
  unfoldable pub destroy_step : ManyToMany A → ManyToMany A
  unfolding destroy_at
  destroy_step q = destroy_at q q.destructor

-- Another thread puts a message, a thread of svc makes a step, or the destructor does.
pub data Event {ℓ} (A : Type ℓ) : Type ℓ where
  puts : Message A → Event A
  turn : ℕ → Event A
  destroys : Event A

module _ {ℓ} {A : Type ℓ} where
  unfoldable pub step : ManyToMany A → Event A → ManyToMany A
  step q (puts m) = (put q m error_what).0
  step q (turn i) = svc_step q i
  step q destroys = destroy_step q

  unfoldable pub steps : ManyToMany A → List (Event A) → ManyToMany A
  steps q [] = q
  steps q (e ∷ es) = steps (step q e) es
