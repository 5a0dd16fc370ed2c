-- ===== src/Tcp/SslServer.antt =====
-- bingo/TCP/tcp_ssl_server.h: the server over SSL. It keeps its handlers by raw pointers, which are
-- numbers here, in the order in which they are made. The timers are those of the server without SSL.
pub mod Handlers
use bingo_v.Prelude.{ℕ, suc, Bool, true, false, Option, none, some, List, [], ◌∷◌, ◌++◌, map}
use bingo_v.ErrorWhat.{ErrorWhat}
use bingo_v.Tcp.ServerHandler.{Server}
use bingo_v.Tcp.Server as Plain
use bingo_v.Tcp.Server.{Waits, ServerAction}

pub data SslServerAction : Type 0 where
  -- the calls of the SSL context
  set_options set_password_callback use_certificate_chain use_private_key use_tmp_dh :
      SslServerAction
  new_handler async_accept : ℕ → SslServerAction
  -- start() of a handler, or catch_error and close_socket; delete
  handler_start : ℕ → SslServerAction
  handler_refuse : ℕ → ErrorWhat → SslServerAction
  delete_handler : ℕ → SslServerAction
  accept_error_func : SslServerAction
  timer : ServerAction → SslServerAction

-- start_accept(), when `made` handlers were made before.
unfoldable pub start_accept : ℕ → List SslServerAction
start_accept made = new_handler made ∷ async_accept made ∷ []

unfoldable pub check_authentication : Waits → List SslServerAction
check_authentication w = map timer (Plain.check_authentication w)

unfoldable pub check_heartjump : Waits → List SslServerAction
check_heartjump w = map timer (Plain.check_heartjump w)

-- The constructor.
unfoldable pub tcp_ssl_server : Waits → List SslServerAction
unfolding start_accept check_authentication check_heartjump
tcp_ssl_server w =
    set_options
    ∷ set_password_callback
    ∷ use_certificate_chain
    ∷ use_private_key
    ∷ use_tmp_dh
    ∷ (start_accept 0 ++ (check_heartjump w ++ check_authentication w))

-- accept_handler(new_handler, ec) for the handler `h`, the last that was made; the answer of
-- accept_success_func is an error or none.
unfoldable pub accept_handler : ℕ → Bool → Option ErrorWhat → List SslServerAction
unfolding start_accept
accept_handler h true none = handler_start h ∷ start_accept (suc h)
accept_handler h true (some e) = handler_refuse h e ∷ start_accept (suc h)
accept_handler h false reply = accept_error_func ∷ delete_handler h ∷ start_accept (suc h)

module _ (w : Waits) (store : ℕ → Server) where
  -- authentication_handler(ec) and heartjump_handler(ec), over the handlers in the manager.
  unfoldable pub authentication_handler : Bool → (ℕ → ℕ) → List ℕ → List SslServerAction
  authentication_handler ok now sets = map timer (Plain.authentication_handler w store ok now sets)

  unfoldable pub heartjump_handler : Bool → (ℕ → ℕ) → List ℕ → List SslServerAction
  heartjump_handler ok now sets = map timer (Plain.heartjump_handler w store ok now sets)

-- The accepts that complete, one after the other, from the handler `h` on.
unfoldable pub accept_all : ℕ → List (Bool × Option ErrorWhat) → List SslServerAction
accept_all h [] = []
accept_all h ((ok, reply) ∷ outcomes) = accept_handler h ok reply ++ accept_all (suc h) outcomes
