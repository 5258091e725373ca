-- ===== src/Lbs/Client/Visitor.antt =====
-- turnserver/lbs/uni_lbs_client.cpp and uni_lbs_client_interface.cpp: UniLbsClient between its
-- connections, whose UniLbsEventCallback it is, and its Visitor.
--
-- `S` is the state of the visitor. The connection and the Unpacker that a visitor is given are not
-- looked at by any visitor here, and are left out.
use turnserver_v.Base.{ℕ, List, [], if◌then◌else◌}
use turnserver_v.Lbs.Connection.{
  ChannelInfo, Answers, Upcall, lbs_connected, lbs_disconnected, lbs_message_received,
  update_load_quota, join_replied, LbsConnection, time_to_ping,
}

pub record Performance : Type 0 where
  pub user_count : ℕ
  pub cpu_percentage : ℕ
  pub rx_kbps : ℕ
  pub tx_kbps : ℕ

pub record Visitor (S : Type 0) : Type 0 where
  pub on_edge_server_performance_required : S → Performance × S
  pub on_full_channel_list_required : S → List ChannelInfo × S
  pub on_lbs_connected : S → S
  pub on_lbs_disconnected : S → S
  pub on_all_lbs_disconnected : S → S
  pub on_lbs_message_received : ℕ → S → S
  pub on_update_edge_server_load_quota : ℕ → S → S

-- What the visitor does that overrides nothing but the pure virtual function.
unfoldable pub plain_visitor : {S : Type 0} → (S → Performance × S) → Visitor S
plain_visitor performance = record {
  on_edge_server_performance_required = performance;
  on_full_channel_list_required = λ s. ([], s);
  on_lbs_connected = λ s. s;
  on_lbs_disconnected = λ s. s;
  on_all_lbs_disconnected = λ s. s;
  on_lbs_message_received = λ uri s. s;
  on_update_edge_server_load_quota = λ max_users s. s;
}

-- CallbackAdaptor: a visitor that calls a UniLbsClientInterface::Callback.
unfoldable adaptor : {S : Type 0} → Visitor S → Visitor S
adaptor callback = record {
  on_edge_server_performance_required = λ s. callback.on_edge_server_performance_required s;
  on_full_channel_list_required = λ s. callback.on_full_channel_list_required s;
  on_lbs_connected = λ s. callback.on_lbs_connected s;
  on_lbs_disconnected = λ s. callback.on_lbs_disconnected s;
  on_all_lbs_disconnected = λ s. callback.on_all_lbs_disconnected s;
  on_lbs_message_received = λ uri s. callback.on_lbs_message_received uri s;
  on_update_edge_server_load_quota =
      λ max_users s. callback.on_update_edge_server_load_quota max_users s;
}

module _ {S : Type 0} (v : Visitor S) where
  -- OnLbsConnected, OnLbsDisconnected, OnLbsMessageReceived, OnUpdateEdgeServerLoadQuota, and
  -- OnJoinReplied, whose answer is `joined_channels`.
  unfoldable on_upcall : Upcall → S → S
  on_upcall lbs_connected s = s
  on_upcall lbs_disconnected s = s
  on_upcall (lbs_message_received uri) s = v.on_lbs_message_received uri s
  on_upcall (update_load_quota max_users) s = v.on_update_edge_server_load_quota max_users s
  on_upcall (join_replied details) s = (v.on_full_channel_list_required s).1

  -- OnJoinReplied
  unfoldable pub joined_channels : S → List ChannelInfo
  joined_channels s = (v.on_full_channel_list_required s).0

  -- What the client answers a connection, with the performance and the channels of the visitor.
  unfoldable pub visitor_answers : S → Answers
  visitor_answers s = record {
    users = (v.on_edge_server_performance_required s).0.user_count;
    cpu = (v.on_edge_server_performance_required s).0.cpu_percentage;
    rx_kbps = (v.on_edge_server_performance_required s).0.rx_kbps;
    tx_kbps = (v.on_edge_server_performance_required s).0.tx_kbps;
    channels = joined_channels s;
  }

  -- TimeToPing of a connection, with what it does to the visitor.
  unfoldable pub visited_ping : LbsConnection → S → LbsConnection × S
  visited_ping l s = (
    time_to_ping (visitor_answers s) l,
    if l.joined then (v.on_edge_server_performance_required s).1 else s,
  )
