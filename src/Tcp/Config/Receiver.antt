-- ===== src/Tcp/Config/Receiver.antt =====
-- bingo/TCP/config/receiver_cfg.cpp, the class tcp_receiver_cfg: the address that a server listens on.
pub mod Values
use Prim.Native.String.{String}
use bingo_v.Prelude.{ℕ, Bool, true, false, Option, none, some, []}
use bingo_v.ErrorWhat.{ErrorWhat, error_what, err_no, clone}
use bingo_v.Bytes.{Bytes}
use bingo_v.Configuration.{Found, missing, found, value}

-- The struct tcp_recevier_cfg_value.
pub record TcpReceiverCfgValue : Type 0 where
  pub ip : Bytes
  pub port : ℕ

pub record TcpReceiverCfg : Type 0 where
  pub is_valid : Bool
  pub err : ErrorWhat
  pub value : TcpReceiverCfgValue

-- The constructor, with what the port, which it does not set, holds.
unfoldable pub tcp_receiver_cfg : ℕ → TcpReceiverCfg
tcp_receiver_cfg old_port = record {
  is_valid = false;
  err = error_what;
  value = record { ip = []; port = old_port };
}

with_port : TcpReceiverCfg → Option ℕ → Option (TcpReceiverCfg × Bool)
with_port c none = none
with_port c (some n) = some (record c { value = record c.value { port = n } }, true)

module _ (to_port : Bytes → Option ℕ) (get_node : String → Found) where
  check_port : TcpReceiverCfg → Found → Option (TcpReceiverCfg × Bool)
  unfolding with_port
  check_port c (missing e) = some (record c { err = clone e c.err }, false)
  check_port c (found n) = with_port c (to_port (value n))

  check_ip : TcpReceiverCfg → Found → Option (TcpReceiverCfg × Bool)
  unfolding check_port
  check_ip c (missing e) = some (record c { err = clone e c.err }, false)
  check_ip c (found n) =
      check_port (record c { value = record c.value { ip = value n } })
        (get_node "application.tcp_receiver.port")

  -- check_node(); `none` is bad_lexical_cast.
  unfoldable pub check_node : TcpReceiverCfg → Option (TcpReceiverCfg × Bool)
  unfolding check_ip
  check_node c = check_ip c (get_node "application.tcp_receiver.ip")

verdict : Option (TcpReceiverCfg × Bool) → Option (TcpReceiverCfg × Bool)
verdict none = none
verdict (some (c, true)) = some (record c { is_valid = true }, true)
verdict (some (c, false)) = some (record c { is_valid = false; err = err_no 0x13 c.err }, false)

-- read_xml(), from what xml_.read gives and the error that the parser then has.
unfoldable pub read_xml :
    (Bytes → Option ℕ)
    → TcpReceiverCfg
    → Option (String → Found)
    → ErrorWhat
    → Option (TcpReceiverCfg × Bool)
unfolding check_node verdict
read_xml to_port c none e = some (record c { err = err_no 0x12 (clone e c.err) }, false)
read_xml to_port c (some get_node) e = verdict (check_node to_port get_node c)
