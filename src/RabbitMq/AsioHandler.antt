-- ===== src/RabbitMq/AsioHandler.antt =====
-- bingo/RabbitMQ/visitor/asiohandler.cpp: the connection of an AMQP client. AMQP-CPP is a parameter:
-- parse(data, size) of a connection gives the number of bytes used, the connection afterwards, and
-- the methods of this handler that it has called, in order. boost::asio is a list of events, each the
-- completion of an operation that is under way. Times are in microseconds.
pub mod Machine
pub mod Writes
pub mod Histories
pub mod Reads
use bingo_v.Prelude.{
  ℕ, ◌+◌, ◌*◌, Bool, true, false, not, ◌&&◌, Option, none, some, List, [], ◌∷◌, ◌++◌, ltb, ◌==◌,
  if◌then◌else◌, length, take, drop, replicate,
}
use bingo_v.Bytes.{Bytes, same}
use bingo_v.RabbitMq.Buffer.{AmqpBuffer, amqp_buffer, write, drain, available, shl}
use bingo_v.RabbitMq.Buffer.Queue.{contents}

-- What log_out is given, without its fixed texts.
pub data LogLine : Type 0 where
  connection_timed_out connection_closed : LogLine
  connection_error reading_error writing_error : ℕ → LogLine
  amqp_error : Bytes → LogLine

-- The methods of ConnectionHandler that a call of parse may make.
pub data Callback : Type 0 where
  sends : Bytes → Callback
  fails : Bytes → Callback
  connects closes : Callback

-- The class AsioHandler with the socket and the io_service. `connecting`, `reading`, `timing` and
-- `beating` are the operations under way besides a write; `given`, `issued`, `sent` and `parsed` record
-- what onData was given, what async_write was called with and has completed, and what was parsed.
pub record AsioHandler (C : Type 0) : Type 0 where
  pub input_block : Bytes
  pub input : AmqpBuffer
  pub has_connection : Bool
  pub amqp : C
  pub output : List Bytes
  pub write_in_progress : Bool
  pub connected : Bool
  pub quit : Bool
  pub is_heartbeat : Bool
  pub p1 : ℕ
  pub socket_closed : Bool
  pub stopped : Bool
  pub connecting : Bool
  pub reading : Bool
  pub timing : Bool
  pub beating : Bool
  pub heartbeats : ℕ
  pub given : List Bytes
  pub issued : List Bytes
  pub sent : List Bytes
  pub parsed : Bytes
  pub log : List LogLine

abbrev pub asio_input_buffer_size : ℕ
asio_input_buffer_size = 4096

abbrev pub max_wait_for_heartbeat : ℕ
max_wait_for_heartbeat = 90 * 1000000

abbrev pub heart : Bytes
heart = 0x08 ∷ 0x00 ∷ 0x00 ∷ 0x00 ∷ 0x00 ∷ 0x00 ∷ 0x00 ∷ 0xce ∷ []

-- The function is_heartbeat, on the block that it reads eight bytes of.
unfoldable pub is_heart : Bytes → Bool
is_heart block = same heart (take 8 block)

-- The buffer at the front of the deque; no caller asks for that of an empty one.
abbrev pub front : List Bytes → List Bytes
front [] = []
front (b ∷ bs) = b ∷ []

module _ {C : Type 0} where
  -- The constructor.
  unfoldable pub asio_handler : C → Bool → AsioHandler C
  asio_handler c beat = record {
    input_block = replicate asio_input_buffer_size 0;
    input = amqp_buffer (asio_input_buffer_size * 2);
    has_connection = false;
    amqp = c;
    output = [];
    write_in_progress = false;
    connected = false;
    quit = false;
    is_heartbeat = beat;
    p1 = 0;
    socket_closed = false;
    stopped = false;
    connecting = false;
    reading = false;
    timing = false;
    beating = false;
    heartbeats = 0;
    given = [];
    issued = [];
    sent = [];
    parsed = [];
    log = [];
  }

  abbrev pub log_out : LogLine → AsioHandler C → AsioHandler C
  log_out l h = record h { log = h.log ++ (l ∷ []) }

  unfoldable pub do_connect : AsioHandler C → AsioHandler C
  do_connect h = record h { timing = true; connecting = true }

  unfoldable pub set_heartbeat_timer : ℕ → AsioHandler C → AsioHandler C
  set_heartbeat_timer now h = record h { p1 = now }

  -- p1_ < now - seconds
  unfoldable pub check_heartbeat_timeout : AsioHandler C → ℕ → Bool
  check_heartbeat_timeout h now = ltb (h.p1 + max_wait_for_heartbeat) now

  unfoldable pub send_heartbeat : AsioHandler C → AsioHandler C
  send_heartbeat h = record h { heartbeats = h.heartbeats + 1 }

  unfoldable pub start_heartbeat : AsioHandler C → AsioHandler C
  start_heartbeat h = if h.is_heartbeat then record h { beating = true } else h

  -- The handler of heartbeat_timer_.
  unfoldable pub heartbeat_handler : AsioHandler C → ℕ → AsioHandler C
  unfolding check_heartbeat_timeout send_heartbeat set_heartbeat_timer start_heartbeat
  heartbeat_handler h now =
      start_heartbeat
        (if check_heartbeat_timeout h now then set_heartbeat_timer now (send_heartbeat h) else h)

  unfoldable pub do_write : AsioHandler C → AsioHandler C
  do_write h = record h { write_in_progress = true; issued = h.issued ++ front h.output }

  unfoldable pub on_data : AsioHandler C → Bytes → AsioHandler C
  unfolding do_write
  on_data h bs =
      let h' : AsioHandler C = record h {
        has_connection = true;
        output = h.output ++ (bs ∷ []);
        given = h.given ++ (bs ∷ []);
      } in
      if not h.write_in_progress && h.connected then do_write h' else h'

  unfoldable pub on_error : AsioHandler C → Bytes → AsioHandler C
  on_error h message = log_out (amqp_error message) h

  unfoldable pub on_closed : AsioHandler C → AsioHandler C
  on_closed h =
      let h' : AsioHandler C = record h { log = h.log ++ (connection_closed ∷ []); quit = true } in
      if h.write_in_progress then h' else record h' { socket_closed = true }

  -- What the connection calls while it parses; onConnected does nothing.
  unfoldable pub call_back : AsioHandler C → List Callback → AsioHandler C
  unfolding on_data on_error on_closed
  call_back h [] = h
  call_back h (sends bs ∷ cs) = call_back (on_data h bs) cs
  call_back h (fails m ∷ cs) = call_back (on_error h m) cs
  call_back h (connects ∷ cs) = call_back h cs
  call_back h (closes ∷ cs) = call_back (on_closed h) cs

  -- The handler of the timer of doConnect, run without an error.
  unfoldable pub connect_timeout : AsioHandler C → AsioHandler C
  connect_timeout h =
      if h.connected
      then h
      else record h { log = h.log ++ (connection_timed_out ∷ []); stopped = true }

  unfoldable pub do_read : AsioHandler C → AsioHandler C
  do_read h = record h { reading = true }

  write_waiting : AsioHandler C → List Bytes → AsioHandler C
  unfolding do_write
  write_waiting h [] = h
  write_waiting h (b ∷ bs) = do_write h

  -- The handler of async_connect: `none` is success, else the number of the error.
  unfoldable pub connect_handler : AsioHandler C → Option ℕ → ℕ → AsioHandler C
  unfolding set_heartbeat_timer start_heartbeat do_read write_waiting
  connect_handler h none now =
      write_waiting
        (do_read (start_heartbeat (set_heartbeat_timer now (record h { connected = true }))))
        h.output
  connect_handler h (some n) now = record h {
    connected = true;
    log = h.log ++ (connection_error n ∷ []);
    stopped = true;
  }

  next_write : AsioHandler C → List Bytes → AsioHandler C
  unfolding do_write
  next_write h [] = record h { write_in_progress = false }
  next_write h (b ∷ bs) = do_write h

  close_if_quit : AsioHandler C → AsioHandler C
  close_if_quit h = if h.quit then record h { socket_closed = true } else h

  -- The handler of the async_write of doWrite.
  unfoldable pub write_handler : AsioHandler C → Option ℕ → AsioHandler C
  unfolding next_write close_if_quit
  write_handler h none =
      let rest = drop 1 h.output in
      close_if_quit (next_write (record h { output = rest; sent = h.sent ++ front h.output }) rest)
  write_handler h (some n) = record h {
    socket_closed = true;
    log = h.log ++ (writing_error n ∷ []);
    stopped = true;
  }

  -- The end of parseData, from the count of the bytes that were used; `none` is a failed assertion.
  unfoldable pub used : AsioHandler C → ℕ → Option (AsioHandler C)
  used h count =
      let h' : AsioHandler C = record h { parsed = h.parsed ++ take count (contents h.input) } in
      if count == available h.input
      then some (record h' { input = drain h.input })
      else if ltb 0 count
      then elim (shl h.input count) [ none ↦ none | some b ↦ some (record h' { input = b }) ]
      else some h

  -- The bytes of a read, in _asioInputBuffer and in _amqpBuffer, and the time of a heartbeat.
  unfoldable pub take_in : AsioHandler C → Bytes → ℕ → AsioHandler C
  unfolding set_heartbeat_timer
  take_in h bs now =
      let block = bs ++ drop (length bs) h.input_block in
      let h' : AsioHandler C = record h { input_block = block; input = (write h.input bs).0 } in
      if is_heart block then set_heartbeat_timer now h' else h'

  -- The handler of async_receive, for an error.
  unfoldable pub read_error : AsioHandler C → ℕ → AsioHandler C
  read_error h n = record h { log = h.log ++ (reading_error n ∷ []); stopped = true }

module _ {C : Type 0} (parse : C → Bytes → ℕ × C × List Callback) where
  unfoldable pub parse_data : AsioHandler C → Option (AsioHandler C)
  unfolding used call_back
  parse_data h =
      let (count, c, calls) = parse h.amqp (contents h.input) in
      if h.has_connection then used (call_back (record h { amqp = c }) calls) count else some h

  -- The handler of async_receive, for the bytes of a read.
  unfoldable pub read_handler : AsioHandler C → Bytes → ℕ → Option (AsioHandler C)
  unfolding parse_data take_in do_read
  read_handler h bs now = elim (parse_data (take_in h bs now)) [
    | none ↦ none
    | some h' ↦ some (do_read h')
  ]
