-- ===== src/RabbitMq/Sendor/Routing.antt =====
-- bingo/RabbitMQ/handlers/routing_sendor.cpp.
use bingo_v.Prelude.{Bool, Option, some}
use bingo_v.ErrorWhat.{ErrorWhat}
use bingo_v.Bytes.{Bytes}
use bingo_v.MemGuard.{MemGuard}
use bingo_v.Thread.ManyToOne.{ManyToOne}
use bingo_v.Configuration.{Found}
use bingo_v.RabbitMq.Config.{Casts, routing_type}
use bingo_v.RabbitMq.RoutingCfg.{check_routing_type}
use bingo_v.RabbitMq.Sendor.{Publish, transfer_by_key, top_by, release}
use bingo_v.RabbitMq.Sendor.Routed.{RoutedSendor, send, construct, connect}

unfoldable pub rb_top : (Publish → Bool) → RoutedSendor → MemGuard → Option RoutedSendor
unfolding send top_by
rb_top accepts = top_by (send accepts)

unfoldable pub transfer_data_by_key : RoutedSendor → Bytes → Bytes → Option RoutedSendor
unfolding transfer_by_key
transfer_data_by_key = transfer_by_key

-- transfer_data_by_routingkey(routingkey, in, in_size) has an empty body.
unfoldable pub transfer_data_by_routingkey : RoutedSendor → Bytes → Bytes → Option RoutedSendor
transfer_data_by_routingkey s r body = some s

unfoldable pub routing_sendor :
    Casts → Option Found → ErrorWhat → Option (ManyToOne MemGuard) → Option RoutedSendor
unfolding construct
routing_sendor = construct check_routing_type

unfoldable pub connet_to_server : RoutedSendor → Bool → Option RoutedSendor
unfolding connect
connet_to_server = connect routing_type

-- The destructor.
unfoldable pub destroy : RoutedSendor → RoutedSendor
unfolding release
destroy = release
