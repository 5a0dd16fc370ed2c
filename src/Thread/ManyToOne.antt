-- ===== src/Thread/ManyToOne.antt =====
-- bingo/thread/many_to_one.h and bingo/thread/thread_data_type.h: one queue, any number of threads
-- that put, and one thread that runs svc. Each critical section under mu_ is one step; the callback
-- f_ and free_message run between two of them. A wait on cond_get_ is a turn that changes nothing.
pub mod Order
pub mod Shutdown
use bingo_v.Prelude.{
  ℕ, zero, suc, Bool, true, false, List, [], ◌∷◌, ◌++◌, if◌then◌else◌, ◌==◌, Option, none, some,
}
use bingo_v.ErrorWhat.{ErrorWhat, Status, success, failure, err_no, err_message}

-- A task message, by its field type: THREAD_DATA_TYPE_DATA or THREAD_DATA_TYPE_EXIT_THREAD.
pub data Message {ℓ} (A : Type ℓ) : Type ℓ where
  task : A → Message A
  exit_thread : Message A

-- Where the thread of svc stands: about to take mu_, between two critical sections with a message,
-- or returned.
pub data Place {ℓ} (A : Type ℓ) : Type ℓ where
  looping : Place A
  holding : Message A → Place A
  returned : Place A

-- The class many_to_one. `handled` is what f_ was called with, `freed` what free_message deleted.
pub record ManyToOne {ℓ} (A : Type ℓ) : Type ℓ where
  pub queue : List (Message A)
  pub is_thread_exit : Bool
  pub place : Place A
  pub handled : List A
  pub freed : List (Message A)

module _ {ℓ} {A : Type ℓ} where
  -- The constructor: the thread of svc is started.
  unfoldable pub many_to_one : ManyToOne A
  many_to_one = record {
    queue = [];
    is_thread_exit = false;
    place = looping;
    handled = [];
    freed = [];
  }

  -- put(data, e_what)
  unfoldable pub put : ManyToOne A → Message A → ErrorWhat → ManyToOne A × ErrorWhat × Status
  put q m e =
      if q.is_thread_exit
      then (q, err_message "thread has exit!" (err_no 0x38 e), failure)
      else (record q { queue = q.queue ++ (m ∷ []) }, e, success)

  -- data_p->type == THREAD_DATA_TYPE_EXIT_THREAD
  abbrev pub is_exit : Message A → Bool
  is_exit (task a) = false
  is_exit exit_thread = true

  -- The critical section of svc: pop, return, or wait.
  unfoldable pub take_turn : ManyToOne A → List (Message A) → ManyToOne A
  take_turn q [] = if q.is_thread_exit then record q { place = returned } else q
  take_turn q (m ∷ rest) = record q {
    queue = rest;
    place = holding m;
    is_thread_exit = if is_exit m then true else q.is_thread_exit;
  }

  -- What svc does with a message: f_ unless it is an exit message, then free_message.
  unfoldable pub handle : ManyToOne A → Message A → ManyToOne A
  handle q (task a) = record q {
    place = looping;
    handled = q.handled ++ (a ∷ []);
    freed = q.freed ++ (task a ∷ []);
  }
  handle q exit_thread = record q { place = looping; freed = q.freed ++ (exit_thread ∷ []) }

  svc_at : ManyToOne A → Place A → ManyToOne A
  unfolding take_turn handle
  svc_at q looping = take_turn q q.queue
  svc_at q (holding m) = handle q m
  svc_at q returned = q

  -- One step of svc.
  unfoldable pub svc_step : ManyToOne A → ManyToOne A
  unfolding svc_at
  svc_step q = svc_at q q.place

  -- The loop of ~many_to_one: an exit message is put until put accepts it, or refuses it because svc
  -- has seen one (0x38). `none` is a loop that has used up its fuel.
  pub send_exit : ℕ → ManyToOne A → ErrorWhat → Option (ManyToOne A × Status)
  send_exit zero q e = none
  send_exit (suc n) q e =
      let (q', e', suc_code) = put q exit_thread e in
      elim suc_code [
        | success ↦ some (q', success)
        | failure ↦
            let again = send_exit n q' e' in if e'.number == 0x38 then some (q', failure) else again
      ]

-- Another thread puts a message, or the thread of svc makes a step.
pub data Event {ℓ} (A : Type ℓ) : Type ℓ where
  puts : Message A → Event A
  turn : Event A

-- A run with what put has accepted, in order.
pub record Run {ℓ} (A : Type ℓ) : Type ℓ where
  pub state : ManyToOne A
  pub accepted : List (Message A)

module _ {ℓ} {A : Type ℓ} where
  note : Run A → Message A → ManyToOne A × ErrorWhat × Status → Run A
  note r m (q, e, success) = record { state = q; accepted = r.accepted ++ (m ∷ []) }
  note r m (q, e, failure) = record r { state = q }

  unfoldable pub step : ErrorWhat → Run A → Event A → Run A
  unfolding note
  step e r (puts m) = note r m (put r.state m e)
  step e r turn = record r { state = svc_step r.state }

  unfoldable pub steps : ErrorWhat → Run A → List (Event A) → Run A
  steps e r [] = r
  steps e r (ev ∷ evs) = steps e (step e r ev) evs

  unfoldable pub start : Run A
  unfolding many_to_one
  start = record { state = many_to_one; accepted = [] }
