-- ===== src/RabbitMq/AsioHandler/Machine.antt =====
-- bingo/RabbitMQ/visitor/asiohandler.cpp: the handler in its io_service, which runs one completed
-- operation after the other.
use bingo_v.Prelude.{ℕ, Bool, false, not, ◌&&◌, Option, none, some, List, [], ◌∷◌, if◌then◌else◌}
use bingo_v.Bytes.{Bytes}
use bingo_v.RabbitMq.AsioHandler.{
  Callback, AsioHandler, asio_handler, do_connect, heartbeat_handler, on_data, connect_timeout,
  connect_handler, write_handler, read_error, read_handler,
}

-- The application sends, or an operation completes.
pub data Event : Type 0 where
  given_data : Bytes → Event
  connect_done : Option ℕ → ℕ → Event
  connect_times_out : Event
  write_done : Option ℕ → Event
  received : Bytes → ℕ → Event
  receive_failed : ℕ → Event
  heartbeat_time : ℕ → Event

module _ {C : Type 0} (parse : C → Bytes → ℕ × C × List Callback) where
  -- An event whose operation is not under way, or after the io_service has stopped, does not occur.
  unfoldable pub step : AsioHandler C → Event → Option (AsioHandler C)
  step h (given_data bs) = some (on_data h bs)
  step h (connect_done r now) =
      if h.connecting && not h.stopped
      then some (connect_handler (record h { connecting = false }) r now)
      else some h
  step h connect_times_out =
      if h.timing && not h.stopped
      then some (connect_timeout (record h { timing = false }))
      else some h
  step h (write_done r) =
      if h.write_in_progress && not h.stopped then some (write_handler h r) else some h
  step h (received bs now) =
      let r = read_handler parse (record h { reading = false }) bs now in
      if h.reading && not h.stopped then r else some h
  step h (receive_failed n) =
      if h.reading && not h.stopped
      then some (read_error (record h { reading = false }) n)
      else some h
  step h (heartbeat_time now) =
      if h.beating && not h.stopped
      then some (heartbeat_handler (record h { beating = false }) now)
      else some h

  unfoldable pub steps : AsioHandler C → List Event → Option (AsioHandler C)
  steps h [] = some h
  steps h (ev ∷ evs) = elim (step h ev) [ none ↦ none | some h' ↦ steps h' evs ]

-- A new handler after connect(host, port).
unfoldable pub begin : {C : Type 0} → C → Bool → AsioHandler C
unfolding asio_handler do_connect
begin c beat = do_connect (asio_handler c beat)
