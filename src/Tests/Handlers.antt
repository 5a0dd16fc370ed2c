-- ===== src/Tests/Handlers.antt =====
-- bingo/TCP: the handlers, the client, the SSL handler and the managers at small histories.
use Prim.Native.Nat.{min}
use bingo_v.Prelude.{
  ℕ, ◌*◌, ◌^◌, ◌≡◌, ◌⊎◌, refl, true, false, none, List, [], ◌∷◌, ◌==◌, All, arith,
}
use bingo_v.ErrorWhat.{error_what}
use bingo_v.Tcp.Types.{post, active_close}
use bingo_v.Tcp.Reader.Reconnects.{IsPaired}
use bingo_v.Tcp.ServerHandler.{Server, server_side}
use bingo_v.Tcp.ServerHandler.World as World
use bingo_v.Tcp.ServerHandler.World.{begin, steps}
use bingo_v.Tcp.ServerHandler.Ownership.{Inv, begin-Inv}
use bingo_v.Tcp.ServerHandler.Silence.{Silent, steps-Silent}
use bingo_v.Tcp.ClientHandler.{
  client_side, start, read_handler, active_close as client_active_close,
}
use bingo_v.Tcp.ClientHandler.Effects.{client-reconnects}
use bingo_v.Tcp.Client.{Parser, TcpClient, tcp_client, reconnect, failures}
use bingo_v.Tcp.Client.Backoff.{HasDelay, reconnect-failures}
use bingo_v.Tcp.SslHandler.{SslEvent, handshake_done, handler_event, begin_ssl, ssl_steps}
use bingo_v.Tcp.SslHandler.Handshake.{begin_ssl-Inv}
use bingo_v.Tcp.Manager.{check_heartjump_in_thread, by_heartbeat}
use bingo_v.Tcp.Manager.Members.{count}
use bingo_v.Tcp.Manager.Timeouts.{calls_of, IsSilent, check_heartjump_lem}
use bingo_v.Tcp.Server.{Waits, Completion, accepted, heartjump_fired, listen, complete_all}
use bingo_v.Tcp.Server.Listening.{IsListening, listen-accepts}
use bingo_v.Tests.Reader.{demo, fresh}

-- A package is sent while a message arrives.
abbrev events : List World.Event
events =
    World.Event.send_data (5 ∷ 6 ∷ [])
    ∷ World.Event.run_job
    ∷ World.Event.read_done 0 1 1
    ∷ World.Event.write_done 0 0 2
    ∷ World.Event.send_close error_what
    ∷ World.Event.run_job
    ∷ World.Event.read_done 125 0 2
    ∷ []

abbrev closed_world : World.World
closed_world = record {
  connection = record fresh { is_valid = false; is_open = false };
  jobs = [];
  writes = [];
  trace = [];
}

abbrev ssl_events : List SslEvent
ssl_events =
    handshake_done true ∷ handler_event (World.Event.read_done 0 1 1) ∷ handshake_done false ∷ []

abbrev parser : Parser
parser = record {
  retry_delay_seconds = 2;
  max_retry_delay_seconds = 30;
  max_interval_seconds_on_heartjump = 5;
}

abbrev tired_client : TcpClient
tired_client = record { retry_delay = 30; is_authenticate_pass = true; has_handler = true }

-- Pointer 1 is an authenticated handler that was last heard at 0.
abbrev store : ℕ → Server
store p = record { connection = fresh; is_authentication_pass = p == 1; p1 = 0; p2 = 0; p3 = 0 }

abbrev clock : ℕ → ℕ
clock p = 20000000

abbrev waits : Waits
waits = record { max_wait_for_authentication_pass_seconds = 0; max_wait_for_heartjump_seconds = 10 }

abbrev completions : List Completion
completions = accepted true none ∷ heartjump_fired true clock (1 ∷ []) ∷ accepted false none ∷ []

abbrev handlers : List ℕ
handlers = 1 ∷ 2 ∷ 1 ∷ 0 ∷ []

begin-Inv_example : Inv (steps server_side demo (begin server_side demo 4 0 0 0 1 1) events)
begin-Inv_example = begin-Inv server_side demo 4 0 0 0 1 1 events

steps-Silent_example : Silent closed_world (steps server_side demo closed_world events)
steps-Silent_example = steps-Silent server_side demo closed_world events refl

client-reconnects_example :
    IsPaired client_side (start demo fresh)
    × IsPaired client_side (read_handler demo fresh 104 0 1)
    × IsPaired client_side (client_active_close demo fresh error_what)
client-reconnects_example = client-reconnects demo fresh 104 0 1 error_what

reconnect-failures_example :
    HasDelay
      (min parser.max_retry_delay_seconds (parser.retry_delay_seconds * 2 ^ 3))
      (failures parser (λ d. d) 3 (tcp_client parser).0)
    × HasDelay
        (min parser.max_retry_delay_seconds (parser.retry_delay_seconds * 2 ^ 3))
        (failures parser (λ d. d) 3 (reconnect parser tired_client).0)
reconnect-failures_example =
    reconnect-failures parser (λ d. d) (omega arith) (omega arith) (λ d. refl) 3 tired_client
      (omega arith)

begin_ssl-Inv_example : Inv (ssl_steps demo (begin_ssl demo 4 0 0 0 1 1) ssl_events).world
begin_ssl-Inv_example = begin_ssl-Inv demo 4 0 0 0 1 1 ssl_events

listen-accepts_example : IsListening waits (complete_all waits store (listen waits) completions)
listen-accepts_example = listen-accepts waits store completions

check_heartjump_lem_example :
    All
      (λ call. call.1 ≡ post (active_close by_heartbeat) ∷ [])
      (check_heartjump_in_thread 10 store clock handlers)
    × ((IsSilent 10 store clock 1
          × (calls_of 1 (check_heartjump_in_thread 10 store clock handlers) ≡ count 1 handlers))
        ⊎ ((¬ IsSilent 10 store clock 1)
            × (calls_of 1 (check_heartjump_in_thread 10 store clock handlers) ≡ 0)))
check_heartjump_lem_example = check_heartjump_lem 10 store clock 1 handlers
