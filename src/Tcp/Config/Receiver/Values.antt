-- ===== src/Tcp/Config/Receiver/Values.antt =====
-- bingo/TCP/config/receiver_cfg.cpp: which address a file gives.
use Prim.Native.String.{String}
use bingo_v.Prelude.{ℕ, ◌≡◌, refl, ◌⊎◌, inl, inr, Bool, true, false, Option, none, some, arith}
use bingo_v.ErrorWhat.{ErrorWhat}
use bingo_v.Bytes.{Bytes}
use bingo_v.Configuration.{Node, Found, missing, found, value}
use bingo_v.Tcp.Config.Receiver.{
  TcpReceiverCfg, tcp_receiver_cfg, check_node, check_ip, check_port, with_port, verdict, read_xml,
}

-- The number of the error of a file that cannot be read, and of one that fails its check.
abbrev number_of : {A : Type 0} → Option A → ℕ
number_of none = 0x12
number_of (some a) = 0x13

module _ (to_port : Bytes → Option ℕ) where
  -- What read_xml of a new tcp_receiver_cfg leaves.
  abbrev pub IsAddressRead : Option (String → Found) → TcpReceiverCfg → Bool → Type 0
  IsAddressRead file c ret =
      ((ret ≡ true)
        × (c.is_valid ≡ true)
        × ((get_node : String → Found) × (ip : Node) × (port : Node) × (file ≡ some get_node)
            × (get_node "application.tcp_receiver.ip" ≡ found ip)
            × (get_node "application.tcp_receiver.port" ≡ found port)
            × (c.value.ip ≡ value ip)
            × (to_port (value port) ≡ some c.value.port)))
      ⊎ ((ret ≡ false) × (c.is_valid ≡ false) × (c.err.number ≡ number_of file))

  -- read_xml of a new tcp_receiver_cfg returns true only with a valid configuration that has the text of
  -- the ip node and the port that lexical_cast reads from the port node; when it returns false, the
  -- configuration is not valid and the number of the error is 0x12 if the file was not read, else 0x13.
  pub read_xml-IsAddressRead :
      (old_port : ℕ) (file : Option (String → Found)) (e : ErrorWhat) (c : TcpReceiverCfg)
      (ret : Bool)
      → read_xml to_port (tcp_receiver_cfg old_port) file e ≡ some (c, ret)
      → IsAddressRead file c ret
  unfolding read_xml check_node check_ip check_port with_port verdict tcp_receiver_cfg
  read_xml-IsAddressRead old_port none e c ret h =
      inr (ground (arith, h), ground (arith, h), ground (arith, h))
  read_xml-IsAddressRead old_port (some get_node) e c ret h =
      by (get_node "application.tcp_receiver.ip") (get_node "application.tcp_receiver.port") refl
        refl
    where
      port_read :
          (ip port : Node)
          → get_node "application.tcp_receiver.ip" ≡ found ip
          → get_node "application.tcp_receiver.port" ≡ found port
          → (o : Option ℕ) → to_port (value port) ≡ o
          → IsAddressRead (some get_node) c ret
      port_read ip port f g none k = absurd (ground (arith, h, f, g, k))
      port_read ip port f g (some n) k = inl (
        ground (arith, h, f, g, k),
        ground (arith, h, f, g, k),
        (get_node, ip, port, refl, f, g, ground (arith, h, f, g, k), ground (arith, h, f, g, k)),
      )

      by :
          (i p : Found)
          → get_node "application.tcp_receiver.ip" ≡ i
          → get_node "application.tcp_receiver.port" ≡ p
          → IsAddressRead (some get_node) c ret
      by (missing m) p f g = inr (ground (arith, h), ground (arith, h), ground (arith, h))
      by (found ip) (missing m) f g = inr (ground (arith, h), ground (arith, h), ground (arith, h))
      by (found ip) (found port) f g = port_read ip port f g (to_port (value port)) refl
