-- ===== src/Tcp/Client.antt =====
-- bingo/TCP/tcp_client.h: connecting, the delay between attempts, and the heartbeat timer.
-- The constants of the class PARSER are arguments; `connet_success_func` is the answer of the
-- application, an error or none.
pub mod Backoff
pub mod Heartjump
use bingo_v.Prelude.{
  ℕ, zero, suc, ◌+◌, ◌*◌, ◌^◌, Bool, true, false, Option, none, some, List, [], ◌∷◌, ltb, ◌==◌,
  if◌then◌else◌,
}
use bingo_v.ErrorWhat.{ErrorWhat, error_with}

-- The constants retry_delay_seconds, max_retry_delay_seconds, max_interval_seconds_on_heartjump.
pub record Parser : Type 0 where
  pub retry_delay_seconds : ℕ
  pub max_retry_delay_seconds : ℕ
  pub max_interval_seconds_on_heartjump : ℕ

-- The class tcp_client; `has_handler` says that handler_ is set.
pub record TcpClient : Type 0 where
  pub retry_delay : ℕ
  pub is_authenticate_pass : Bool
  pub has_handler : Bool

pub data Output : Type 0 where
  -- a new handler and async_connect
  start_connect : Output
  -- timer0_ and timer1_ with their seconds
  reconnect_timer heartjump_timer : ℕ → Output
  -- timer2_ with its seconds, and send_close_in_thread
  check_timer : ℕ → Output
  close_asked : ErrorWhat → Output
  connect_failed : ℕ → Output
  handler_started : Output
  handler_closed : ErrorWhat → Output
  heartjump_sent : Output

-- schedule_timer1()
unfoldable pub schedule_timer1 : Parser → List Output
schedule_timer1 ps =
    if ltb 0 ps.max_interval_seconds_on_heartjump
    then heartjump_timer ps.max_interval_seconds_on_heartjump ∷ []
    else []

unfoldable pub tcp_client : Parser → TcpClient × List Output
unfolding schedule_timer1
tcp_client ps = (
  record {
    retry_delay = ps.retry_delay_seconds;
    is_authenticate_pass = false;
    has_handler = false;
  },
  start_connect ∷ schedule_timer1 ps,
)

unfoldable pub set_authenticate_pass : Bool → TcpClient → TcpClient
set_authenticate_pass is_pass c = record c { is_authenticate_pass = is_pass }

-- reconnect()
unfoldable pub reconnect : Parser → TcpClient → TcpClient × List Output
reconnect ps c = (
  record c { retry_delay = ps.retry_delay_seconds },
  if ps.retry_delay_seconds == 0 then [] else start_connect ∷ [],
)

-- connect_handler(new_handler, ec) without an error.
unfoldable pub connected : TcpClient → Option ErrorWhat → TcpClient × List Output
connected c none = (record c { has_handler = true }, handler_started ∷ [])
connected c (some e) = (c, handler_closed e ∷ [])

-- connect_handler(new_handler, ec) with an error. The int retry_delay_ is doubled, `none` is its overflow;
-- connet_fail_func gets it by reference: `fail_func` is what it then leaves in it, not below 0.
unfoldable pub connect_error : Parser → (ℕ → ℕ) → TcpClient → Option (TcpClient × List Output)
connect_error ps fail_func c =
    let doubled = c.retry_delay * 2 in
    let delay =
      if ltb ps.max_retry_delay_seconds doubled then ps.max_retry_delay_seconds else doubled in
    if ps.retry_delay_seconds == 0
    then some (c, [])
    else if ltb doubled (2 ^ 31)
    then some (
      record c { retry_delay = fail_func delay },
      connect_failed delay ∷ reconnect_timer (fail_func delay) ∷ [],
    )
    else none

unfoldable pub connect_handler :
    Parser → (ℕ → ℕ) → TcpClient → Bool → Option ErrorWhat → Option (TcpClient × List Output)
unfolding connected connect_error
connect_handler ps fail_func c true reply = some (connected c reply)
connect_handler ps fail_func c false reply = connect_error ps fail_func c

-- reconnect_timeout_handler(ec)
unfoldable pub reconnect_timeout_handler : Bool → List Output
reconnect_timeout_handler true = start_connect ∷ []
reconnect_timeout_handler false = []

-- send_heartjump_timeout_handler(ec); `none` is a call through handler_ that is not set.
unfoldable pub send_heartjump_timeout_handler : Parser → TcpClient → Bool → Option (List Output)
unfolding schedule_timer1
send_heartjump_timeout_handler ps c false = some []
send_heartjump_timeout_handler ps c true =
    if c.is_authenticate_pass
    then (if c.has_handler then some (heartjump_sent ∷ schedule_timer1 ps) else none)
    else some (schedule_timer1 ps)

-- schedule_timer2(), with max_interval_seconds_check_heartjump. No method calls it.
unfoldable pub schedule_timer2 : ℕ → List Output
schedule_timer2 limit = check_timer limit ∷ []

-- check_heartjump_timeout() of the handler, with p1_ and the clock in seconds: p1_ < now - limit.
unfoldable pub check_heartjump_timeout : ℕ → ℕ → ℕ → Bool
check_heartjump_timeout limit p1 now = ltb (p1 + limit) now

-- check_heartjump_timeout_handler(ec), with the answer of the handler, which is not set in `none`; the
-- result `none` is a call through handler_ that is not set.
unfoldable pub check_heartjump_timeout_handler :
    Parser → TcpClient → Option Bool → Bool → Option (List Output)
unfolding schedule_timer1
check_heartjump_timeout_handler ps c timed_out false = some []
check_heartjump_timeout_handler ps c timed_out true =
    if c.is_authenticate_pass
    then elim timed_out [
      | none ↦ none
      | some true ↦ some (schedule_timer1 ps)
      | some false ↦ some (
          close_asked (error_with 0x0D "client close socket because heartjump")
          ∷ schedule_timer1 ps)
    ]
    else some (schedule_timer1 ps)

-- An attempt fails; the timer of reconnect_timer then starts the next one.
unfoldable pub failures : Parser → (ℕ → ℕ) → ℕ → TcpClient → Option TcpClient
unfolding connect_error
failures ps fail_func zero c = some c
failures ps fail_func (suc n) c = elim (connect_error ps fail_func c) [
  | none ↦ none
  | some (c', outputs) ↦ failures ps fail_func n c'
]
