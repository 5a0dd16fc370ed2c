-- ===== src/RabbitMq/AsioHandler/Histories.antt =====
-- bingo/RabbitMQ/visitor/asiohandler.cpp: onData, doWrite and the handler of a write in any history.
use bingo_v.Prelude.{
  ℕ, ◌≡◌, refl, sym, ◌∙◌, Bool, true, false, not, ◌&&◌, Option, none, some, List, [], ◌∷◌,
  append-nil, length, replicate, arith, some-injective, Bool-cases, inl, inr,
}
use bingo_v.Bytes.{Bytes}
use bingo_v.RabbitMq.Buffer.Queue.{contents}
use bingo_v.RabbitMq.AsioHandler.{
  AsioHandler, Callback, do_write, call_back, write_handler, next_write, close_if_quit, parse_data,
  take_in, read_handler, do_read,
}
use bingo_v.RabbitMq.AsioHandler.Machine.{
  Event, given_data, connect_done, connect_times_out, write_done, received, receive_failed,
  heartbeat_time, step, steps, begin,
}
use bingo_v.RabbitMq.AsioHandler.Writes.{
  on_data-Fifo, call_back-Fifo, connect_timeout-Fifo, heartbeat_handler-Fifo, connect_handler-Fifo,
  write_handler-Fifo, read_error-Fifo, take_in-Fifo, IfAny, IfAny-if, used-Fifo, Fifo,
}

module _ {C : Type 0} (parse : C → Bytes → ℕ × C × List Callback) where
  parse_data-Fifo : (h : AsioHandler C) → Fifo h → IfAny Fifo (parse_data parse h)
  unfolding parse_data
  parse_data-Fifo h v =
      let r = parse h.amqp (contents h.input) in
      let h' : AsioHandler C = record h { amqp = r.1 } in
      let v' : Fifo h' = ground arith in
      IfAny-if Fifo h.has_connection _ h
        (used-Fifo (call_back h' r.2) r.0 (call_back-Fifo h' r.2 v')) v

  read_handler-Fifo :
      (h : AsioHandler C) (bs : Bytes) (now : ℕ) → Fifo h → IfAny Fifo (read_handler parse h bs now)
  unfolding read_handler do_read
  read_handler-Fifo h bs now v =
      read_on (parse_data parse (take_in h bs now))
        (parse_data-Fifo (take_in h bs now) (take_in-Fifo h bs now v))
    where
      read_on :
          (o : Option (AsioHandler C))
          → IfAny Fifo o
          → IfAny Fifo (elim o [ none ↦ none | some h' ↦ some (do_read h') ])
      read_on none w = tt
      read_on (some h') w = ground arith

  step-Fifo : (h : AsioHandler C) (ev : Event) → Fifo h → IfAny Fifo (step parse h ev)
  unfolding step
  step-Fifo h (given_data bs) v = on_data-Fifo h bs v
  step-Fifo h (connect_done r now) v = elim (Bool-cases (h.connecting && not h.stopped)) [
    | inl e ↦ rw e (
        connect_handler-Fifo (record h { connecting = false }) r now (ground arith) (ground arith)
          refl)
    | inr e ↦ rw e v
  ]
  step-Fifo h connect_times_out v =
      let v' : Fifo (record h { timing = false }) = ground arith in
      IfAny-if Fifo (h.timing && not h.stopped) (some _) h (connect_timeout-Fifo _ v') v
  step-Fifo h (write_done r) v = elim (Bool-cases (h.write_in_progress && not h.stopped)) [
    | inl e ↦ rw e (write_handler-Fifo h r (ground arith) v)
    | inr e ↦ rw e v
  ]
  step-Fifo h (received bs now) v =
      let v' : Fifo (record h { reading = false }) = ground arith in
      IfAny-if Fifo (h.reading && not h.stopped) _ h (read_handler-Fifo _ bs now v') v
  step-Fifo h (receive_failed n) v =
      let v' : Fifo (record h { reading = false }) = ground arith in
      IfAny-if Fifo (h.reading && not h.stopped) (some _) h (read_error-Fifo _ n v') v
  step-Fifo h (heartbeat_time now) v =
      let v' : Fifo (record h { beating = false }) = ground arith in
      IfAny-if Fifo (h.beating && not h.stopped) (some _) h (heartbeat_handler-Fifo _ now v') v

  steps-Fifo :
      (h : AsioHandler C) (evs : List Event)
      → Fifo h
      → (h' : AsioHandler C) → steps parse h evs ≡ some h'
      → Fifo h'
  unfolding steps
  steps-Fifo h [] v h' e = rw (sym (some-injective h h' e)) v
  steps-Fifo h (ev ∷ evs) v h' e =
      after (step parse h ev) refl (step-Fifo h ev v) (λ k w. steps-Fifo k evs w h')
    where
      after :
          (o : Option (AsioHandler C))
          → step parse h ev ≡ o
          → IfAny Fifo o
          → ((k : AsioHandler C) → Fifo k → steps parse k evs ≡ some h' → Fifo h')
          → Fifo h'
      after none f w later = absurd (ground arith)
      after (some k) f w later = later k w (ground arith)

begin-Fifo : {C : Type 0} (c : C) (beat : Bool) → Fifo (begin c beat)
unfolding begin
begin-Fifo c beat = ground arith

-- In every history of a handler that meets no failing assertion, what onData was given is, in order,
-- what has been sent followed by what waits; what has been passed to async_write is what has been sent
-- and, while a write is in progress, the first buffer that waits; and once the connection is made and
-- while the io_service runs, a buffer waits only while a write is in progress.
pub begin-steps-Fifo :
    {C : Type 0} (parse : C → Bytes → ℕ × C × List Callback) (c : C) (beat : Bool)
    (evs : List Event) (h : AsioHandler C)
    → steps parse (begin c beat) evs ≡ some h
    → Fifo h
begin-steps-Fifo parse c beat evs h e = steps-Fifo parse (begin c beat) evs (begin-Fifo c beat) h e

abbrev is_empty : List Bytes → Bool
is_empty [] = true
is_empty (b ∷ bs) = false

busy_iff :
    {C : Type 0} (h : AsioHandler C)
    → Fifo h
    → h.stopped ≡ false
    → h.connected ≡ true
    → (out : List Bytes) → h.output ≡ out
    → h.write_in_progress ≡ not (is_empty out)
busy_iff h v s d [] o = ground (arith, v.busy)
busy_iff h v s d (b ∷ bs) o = ground arith

-- All that was given has been sent, and no write is in progress.
abbrev pub IsFlushed : {C : Type 0} → List Bytes → AsioHandler C → Type 0
IsFlushed given h = (h.sent ≡ given) × (h.output ≡ []) × (h.write_in_progress ≡ false)

module _ {C : Type 0} (parse : C → Bytes → ℕ × C × List Callback) where
  finish_write :
      (h : AsioHandler C) (b : Bytes) (out : List Bytes)
      → h.output ≡ b ∷ out
      → h.write_in_progress ≡ true
      → h.stopped ≡ false
      → (h' : AsioHandler C) × (step parse h (write_done none) ≡ some h')
        × (h'.output ≡ out)
        × (h'.stopped ≡ false)
        × (h'.write_in_progress ≡ not (is_empty out))
        × (h'.given ≡ h.given)
  unfolding step write_handler next_write close_if_quit do_write
  finish_write h b [] o w s =
      (write_handler h none, ground arith, ground arith, ground arith, ground arith, ground arith)
  finish_write h b (c ∷ cs) o w s =
      (write_handler h none, ground arith, ground arith, ground arith, ground arith, ground arith)

  flush :
      (out : List Bytes) (h : AsioHandler C)
      → Fifo h
      → h.output ≡ out
      → h.stopped ≡ false
      → h.write_in_progress ≡ not (is_empty out)
      → (h' : AsioHandler C) × (steps parse h (replicate (length out) (write_done none)) ≡ some h')
        × IsFlushed h.given h'
  unfolding steps
  flush [] h v o s w = (h, refl, (ground (arith, append-nil h.sent), o, w))
  flush (b ∷ bs) h v o s w =
      let f = finish_write h b bs o w s in
      let v' : Fifo f.0 = steps-Fifo parse h (write_done none ∷ []) v f.0 (ground arith) in
      let r = flush bs f.0 v' f.2 f.3 f.4 in (r.0, ground (arith, r.1), (r.2.0 ∙ f.5, r.2.1, r.2.2))

-- While the io_service runs and the connection is made, as many successful completions of writes as
-- there are buffers that wait send all of them, in the order they were given, whatever happened before.
pub waiting_is_sent :
    {C : Type 0} (parse : C → Bytes → ℕ × C × List Callback) (c : C) (beat : Bool)
    (evs : List Event) (h : AsioHandler C)
    → steps parse (begin c beat) evs ≡ some h
    → h.stopped ≡ false
    → h.connected ≡ true
    → (h' : AsioHandler C) × (steps parse h (replicate (length h.output) (write_done none))
        ≡ some h')
      × IsFlushed h.given h'
waiting_is_sent parse c beat evs h e s d =
    let v = begin-steps-Fifo parse c beat evs h e in
    flush parse h.output h v refl s (busy_iff h v s d h.output refl)
