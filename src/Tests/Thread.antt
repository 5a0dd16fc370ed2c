-- ===== src/Tests/Thread.antt =====
-- bingo/thread at histories of a few steps.
use bingo_v.Prelude.{ℕ, suc, ◌+◌, ◌≡◌, refl, true, some, List, [], ◌∷◌, ◌++◌, All, arith, ◌==◌}
use mathlib.Core.List.{Perm}
use bingo_v.ErrorWhat.{Status, error_what, failure}
use bingo_v.Thread.ManyToOne as One
use bingo_v.Thread.ManyToOne.{
  Message, task, exit_thread, Place, looping, holding, returned, ManyToOne, many_to_one, send_exit,
}
use bingo_v.Thread.ManyToOne.Order.{
  in_hand, tasks, has_exit, accepted_in_order, returned_means_done,
}
use bingo_v.Thread.ManyToOne.Shutdown.{svc_steps, left, send_exit-returned}
use bingo_v.Thread.ManyToMany as Many
use bingo_v.Thread.ManyToMany.{ManyToMany, many_to_many, joining, all_returned}
use bingo_v.Thread.ManyToMany.Active.{returned_count, hands, active_and_handed}
use bingo_v.Thread.ManyToMany.Deadlock.{IsInner, IsStuck, destructor_may_hang}
use bingo_v.Thread.ManyToMany.Final.{exit_is_final}

-- A task and an exit message are put, and svc runs to its end.
abbrev one_events : List (One.Event ℕ)
one_events =
    One.Event.puts (task 7)
    ∷ One.Event.turn
    ∷ One.Event.puts exit_thread
    ∷ One.Event.turn
    ∷ One.Event.turn
    ∷ One.Event.turn
    ∷ One.Event.turn
    ∷ []

abbrev last_message : Message ℕ
last_message = task 8

one_returned : (One.steps error_what One.start one_events).state.place ≡ returned
unfolding One.steps One.step One.start One.svc_step One.put
one_returned = refl

-- A task behind the last exit message.
abbrev last_exit : List (Many.Event ℕ)
last_exit = Many.Event.puts exit_thread ∷ Many.Event.puts (task 7) ∷ Many.Event.turn 0 ∷ []

abbrev later_events : List (Many.Event ℕ)
later_events = Many.Event.turn 0 ∷ Many.Event.puts (task 8) ∷ []

one_exit : (Many.steps (many_to_many 1) last_exit).is_thread_exit ≡ true
unfolding Many.steps Many.step many_to_many Many.svc_step Many.put
one_exit = refl

accepted_in_order_example :
    let r = One.steps error_what One.start one_events in
    (r.accepted ≡ r.state.freed ++ (in_hand r.state.place ++ r.state.queue))
    × (r.state.handled ≡ tasks r.state.freed)
accepted_in_order_example = accepted_in_order error_what one_events

returned_means_done_example :
    let r = One.steps error_what One.start one_events in
    (r.state.handled ≡ tasks r.accepted)
    × (has_exit r.accepted ≡ true)
    × (One.put r.state last_message error_what
        ≡ (r.state, record { number = 0x38; message = "thread has exit!" }, failure))
returned_means_done_example = returned_means_done error_what one_events last_message one_returned

send_exit-returned_example :
    (q' : ManyToOne ℕ) × (st : Status) × (send_exit (suc 0) many_to_one error_what ≡ some (q', st))
    × ((svc_steps (left q') q').place ≡ returned)
send_exit-returned_example = send_exit-returned 0 many_to_one

active_and_handed_example :
    let q = Many.steps (many_to_many 1) last_exit in
    (q.thread_active_num + returned_count q.threads ≡ 1)
    × (q.is_thread_exit ≡ (q.thread_active_num == 0))
    × (q.accepted ≡ q.taken ++ q.queue)
    × Perm (q.handled ++ hands q.threads) (tasks q.taken)
active_and_handed_example = active_and_handed 1 last_exit (omega arith)

destructor_may_hang_example :
    (es : List (Many.Event ℕ)) × All IsInner es × IsStuck (Many.steps (many_to_many 2) es)
destructor_may_hang_example = destructor_may_hang 2 (omega arith)

exit_is_final_example :
    let q = Many.steps (many_to_many 1) last_exit in
    (returned_count q.threads ≡ 1)
    × ((Many.steps q later_events).queue ≡ q.queue)
    × ((Many.steps q later_events).handled ≡ q.handled)
exit_is_final_example = exit_is_final 1 last_exit later_events (omega arith) one_exit
