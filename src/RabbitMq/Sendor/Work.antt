-- ===== src/RabbitMq/Sendor/Work.antt =====
-- bingo/RabbitMQ/handlers/work_sendor.cpp.
use bingo_v.Prelude.{ℕ, Bool, true, Option, []}
use bingo_v.ErrorWhat.{ErrorWhat}
use bingo_v.Bytes.{Bytes, c_str}
use bingo_v.MemGuard.{MemGuard}
use bingo_v.Thread.ManyToOne.{ManyToOne}
use bingo_v.Configuration.{Found}
use bingo_v.RabbitMq.Config.{Casts, worker_type}
use bingo_v.RabbitMq.SendorCfg.{RbSendorCfgValue}
use bingo_v.RabbitMq.Sendor.{Publish, transfer_by_key, top_by}
use bingo_v.RabbitMq.Sendor.Keyed.{KeyedSendor, send, transfer_by_routingkey, construct, connect}

-- The arguments of publish in rb_top.
unfoldable pub packet : RbSendorCfgValue → ℕ → Bytes → Publish
packet p ch body = record {
  channel = ch;
  exchange = [];
  routingkey = c_str p.routingkey;
  body = body;
  persistent = true;
}

unfoldable pub rb_top : (Publish → Bool) → KeyedSendor → MemGuard → Option KeyedSendor
unfolding send top_by packet
rb_top accepts = top_by (send accepts packet)

unfoldable pub transfer_data_by_key : KeyedSendor → Bytes → Bytes → Option KeyedSendor
unfolding transfer_by_key
transfer_data_by_key = transfer_by_key

unfoldable pub transfer_data_by_routingkey : KeyedSendor → Bytes → Bytes → Option KeyedSendor
unfolding transfer_by_routingkey
transfer_data_by_routingkey = transfer_by_routingkey

unfoldable pub work_sendor :
    Casts → Option Found → ErrorWhat → Option (ManyToOne MemGuard) → Option KeyedSendor
unfolding construct
work_sendor = construct

unfoldable pub connet_to_server : KeyedSendor → Bool → Option KeyedSendor
unfolding connect
connet_to_server = connect worker_type

-- The destructor, which releases nothing.
unfoldable pub destroy : KeyedSendor → KeyedSendor
destroy s = s
