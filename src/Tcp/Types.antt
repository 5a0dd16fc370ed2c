-- ===== src/Tcp/Types.antt =====
-- What the handlers of bingo/TCP share: the state of a connection, the effects of a handler, the
-- virtual functions that an application overrides, and what differs between the two sides.
-- boost::asio is a parameter: a handler's calls of it are the effects in its list of actions, and
-- the completion of a call is an event that arrives with an error code and a number of bytes.
use bingo_v.Prelude.{ℕ, Bool, List}
use bingo_v.ErrorWhat.{ErrorWhat}
use bingo_v.MemGuard.{MemGuard}

-- What the handlers post to the io_service.
pub data Job : Type 0 where
  active_send_heartjump : Job
  active_send_data : MemGuard → Job
  active_close : ErrorWhat → Job

pub data Action : Type 0 where
  -- boost::asio::async_read of n bytes into the unused part of rev_mgr_
  async_read : ℕ → Action
  -- boost::asio::async_write of a package, completed by write_handler or write_first_handler
  async_write async_write_first : MemGuard → Action
  -- socket_.close(), ios_.post(), the reconnect callback f_ and the authenticate callback f1_
  close_socket : Action
  post : Job → Action
  reconnect : Action
  authenticate : Bool → Action
  -- `new package()` and `delete pk`
  new_package delete_package : MemGuard → Action
  -- the calls of the virtual functions
  catch_error_func : ErrorWhat → Action
  close_complete_func : ℕ → Action
  read_pk_header_complete_func read_pk_full_complete_func : List ℕ → Action
  write_pk_full_complete_func : List ℕ → ℕ → ℕ → Action
  active_send_in_ioservice_func : MemGuard → Action
  active_send_heartjump_in_ioservice_func : Action
  make_first_sended_package_func : MemGuard → Action

-- The answers of the virtual functions that return a code: -1 with the error that they set in
-- e_what, or 0 with what they wrote to their other arguments.
pub data HeaderReply : Type 0 where
  bad_header : ErrorWhat → HeaderReply
  remain_size : ℕ → HeaderReply

pub data FullReply : Type 0 where
  bad_body : ErrorWhat → FullReply
  body_done : FullReply

pub data SendReply : Type 0 where
  refused : MemGuard → ErrorWhat → SendReply
  ready : MemGuard → SendReply

-- The application: the constant header_size of the class PARSER, and the overridden functions.
pub record Application : Type 0 where
  pub header_size : ℕ
  pub on_header : List ℕ → HeaderReply
  pub on_full : List ℕ → FullReply
  pub on_send : MemGuard → SendReply
  pub on_first : MemGuard → SendReply

-- The fields that tcp_svr_handler and tcp_cet_handler share.
pub record Connection : Type 0 where
  pub is_valid : Bool
  pub is_open : Bool
  pub rev_mgr : MemGuard
  pub package_size : ℕ

-- What the two sides write otherwise: the error of a message that is too long, the error of a
-- connection that the peer has closed, and whether close_complete_func is followed by the reconnect callback.
pub record Side : Type 0 where
  pub rev_exceed : ErrorWhat
  pub closed_by_peer : ErrorWhat
  pub reconnects : Bool
