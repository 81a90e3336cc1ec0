-- ===== src/Uplink/State.antt =====
-- main/gateway_uplink.cpp: the globals, and the items of the two queues.
use esp32_s3_rap.Base.{
  ℕ, ◌+◌, ◌*◌, Bool, true, false, List, Option, none, u16, u32, leb, ◌==◌, ◌&&◌, if◌then◌else◌,
  get_or,
}

pub record StatusItem : Type 0 where
  pub node_id : ℕ
  pub stream_id : ℕ
  pub occupied : ℕ
  pub plate : List ℕ

-- A heap block: its address, and what it holds.
pub record Buffer : Type 0 where
  pub address : ℕ
  pub bytes : List ℕ

pub record VideoItem : Type 0 where
  pub origin_node_id : ℕ
  pub stream_id : ℕ
  pub seq : ℕ
  pub data_len : ℕ
  pub data_buffer : Buffer

-- `S` and `V` are the types behind the handles of the two queues; a null handle is `none`.
pub record Uplink (S V : Type 0) : Type 0 where
  pub has_driver : Bool  -- g_ethHandle != nullptr
  pub link_up : Bool
  pub eth_rx_frames : ℕ
  pub eth_rx_arp_req : ℕ
  pub eth_rx_ipv4 : ℕ
  pub stuck_intervals : ℕ
  pub last_sent_total : ℕ
  pub last_queued_total : ℕ
  pub last_restart_ms : ℕ
  pub status_queue : Option S
  pub video_queue : Option V
  pub st_queued : ℕ
  pub st_sent : ℕ
  pub st_dropped : ℕ
  pub vid_queued : ℕ
  pub vid_sent : ℕ
  pub vid_dropped : ℕ

-- The initial values of the globals.
abbrev pub power_off : {S V : Type 0} → Uplink S V
power_off = record {
  has_driver = false;
  link_up = false;
  eth_rx_frames = 0;
  eth_rx_arp_req = 0;
  eth_rx_ipv4 = 0;
  stuck_intervals = 0;
  last_sent_total = 0;
  last_queued_total = 0;
  last_restart_ms = 0;
  status_queue = none;
  video_queue = none;
  st_queued = 0;
  st_sent = 0;
  st_dropped = 0;
  vid_queued = 0;
  vid_sent = 0;
  vid_dropped = 0;
}

-- The counting half of `ethRxHook`; the frame goes on unchanged to `esp_netif_receive`.
unfoldable pub eth_rx_hook : {S V : Type 0} → List ℕ → ℕ → Uplink S V → Uplink S V
eth_rx_hook buffer length u =
    let ether_type = u16 (get_or buffer 12 0 * 256 + get_or buffer 13 0) in
    let counted = record u { eth_rx_frames = u32 (u.eth_rx_frames + 1) } in
    if leb 22 length
    then (if ether_type == 0x0806 && (get_or buffer 20 0 == 0 && get_or buffer 21 0 == 1)
        then record counted { eth_rx_arp_req = u32 (u.eth_rx_arp_req + 1) }
        else if ether_type == 0x0800
        then record counted { eth_rx_ipv4 = u32 (u.eth_rx_ipv4 + 1) }
        else counted)
    else counted

-- `ethEventHandler`
pub data EthEvent : Type 0 where
  connected disconnected other : EthEvent

unfoldable pub eth_event_handler : {S V : Type 0} → EthEvent → Uplink S V → Uplink S V
eth_event_handler connected u = record u { link_up = true }
eth_event_handler disconnected u = record u { link_up = false }
eth_event_handler other u = u
