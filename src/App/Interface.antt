-- ===== src/App/Interface.antt =====
-- cs244b_project/src/app/app_interface.rs: what Streamlet takes for a message of the application.
use streamlet_transparency_l.Prelude.{ℕ, Bool, true, false, ◌&&◌}
use streamlet_transparency_l.Prelude.Tests.{◌==◌}
use streamlet_transparency_l.Prelude.Outcome.{Outcome}
use streamlet_transparency_l.Prelude.Bytes.{Bytes, bytes, bytes_eq}
use streamlet_transparency_l.Message.{Message, MessageKind}
use streamlet_transparency_l.Network.{Gossip, NetworkStack, add_topic, broadcast_to_topic}

abbrev pub app_sender_id : ℕ
app_sender_id = 0

abbrev pub app_net_topic : Bytes
app_net_topic = bytes "app"

abbrev pub app_name : Bytes
app_name = bytes "app"

-- `AppInterface::new` subscribes to the application's topic.
unfoldable pub new : Gossip → NetworkStack → Outcome NetworkStack
new g net = add_topic g net app_net_topic

unfoldable pub send_to_app : Gossip → NetworkStack → Bytes → Outcome NetworkStack
send_to_app g net msg = broadcast_to_topic g net app_net_topic msg

-- `kind == MessageKind::AppSend`
abbrev pub is_app_send : MessageKind → Bool
is_app_send MessageKind.app_send = true
is_app_send _ = false

-- The source accepts any data.
unfoldable pub data_is_valid : Message → Bool
data_is_valid message = true

unfoldable pub message_is_from_app : Message → Bool
unfolding data_is_valid
message_is_from_app message =
    is_app_send message.kind
    && (message.sender_id == app_sender_id
        && (bytes_eq message.sender_name app_name && data_is_valid message))
