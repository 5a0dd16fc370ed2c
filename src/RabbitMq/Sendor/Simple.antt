-- ===== src/RabbitMq/Sendor/Simple.antt =====
-- bingo/RabbitMQ/handlers/simple_sendor.cpp.
use bingo_v.Prelude.{ℕ, Bool, false, Option, []}
use bingo_v.ErrorWhat.{ErrorWhat}
use bingo_v.Bytes.{Bytes, c_str}
use bingo_v.MemGuard.{MemGuard}
use bingo_v.Thread.ManyToOne.{ManyToOne}
use bingo_v.Configuration.{Found}
use bingo_v.RabbitMq.Config.{Casts, simple_type}
use bingo_v.RabbitMq.SendorCfg.{RbSendorCfgValue}
use bingo_v.RabbitMq.Sendor.{Publish, transfer_by_key, top_by, release}
use bingo_v.RabbitMq.Sendor.Keyed.{KeyedSendor, send, transfer_by_routingkey, construct, connect}

-- The arguments of publish in rb_top.
unfoldable pub packet : RbSendorCfgValue → ℕ → Bytes → Publish
packet p ch body = record {
  channel = ch;
  exchange = [];
  routingkey = c_str p.routingkey;
  body = body;
  persistent = false;
}

unfoldable pub rb_top : (Publish → Bool) → KeyedSendor → MemGuard → Option KeyedSendor
unfolding send top_by packet
rb_top accepts = top_by (send accepts packet)

unfoldable pub transfer_data_by_key : KeyedSendor → Bytes → Bytes → Option KeyedSendor
unfolding transfer_by_key
transfer_data_by_key = transfer_by_key

unfoldable pub transfer_data_by_routingkey : KeyedSendor → Bytes → Bytes → Option KeyedSendor
unfolding transfer_by_routingkey
transfer_data_by_routingkey = transfer_by_routingkey

unfoldable pub simple_sendor :
    Casts → Option Found → ErrorWhat → Option (ManyToOne MemGuard) → Option KeyedSendor
unfolding construct
simple_sendor = construct

unfoldable pub connet_to_server : KeyedSendor → Bool → Option KeyedSendor
unfolding connect
connet_to_server = connect simple_type

-- The destructor.
unfoldable pub destroy : KeyedSendor → KeyedSendor
unfolding release
destroy = release
