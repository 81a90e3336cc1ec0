-- ===== src/EspNow.antt =====
-- main/espnow_transport.cpp: frames between the WiFi task and the main loop.
pub mod Delivery
pub mod Starting
pub mod Started
pub mod Peers
pub mod ListPeers
use esp32_s3_rap.Base.{
  ℕ, zero, suc, ◌-◌, Bool, true, false, List, [], ◌∷◌, ◌++◌, Option, none, some, length, replicate,
  ltb, ◌==◌, ◌||◌, if◌then◌else◌, u8,
}
use esp32_s3_rap.Base.Queue.{QueueApi}

-- kMaxPacketBytes and kRxQueueDepth
abbrev pub max_packet_bytes : ℕ
max_packet_bytes = 250

abbrev pub rx_queue_depth : ℕ
rx_queue_depth = 16

-- `bytes` is the whole array `data`.
pub record RxItem : Type 0 where
  pub mac : List ℕ
  pub bytes : List ℕ
  pub len : ℕ

-- `RxItem item{}` and the copies into it.
abbrev pub rx_item : List ℕ → List ℕ → RxItem
rx_item mac frame = record {
  mac = mac;
  bytes = frame ++ replicate (max_packet_bytes - length frame) 0;
  len = u8 (length frame);
}

module _ (api : QueueApi RxItem) where
  open api use {Queue}

  -- `frame` is `data` with its length; a null queue is `none`.
  unfoldable pub on_data_recv : List ℕ → List ℕ → Option Queue → Option Queue
  on_data_recv mac frame rx = elim rx [
    | none ↦ none
    | some q ↦
        if length frame == 0 || ltb max_packet_bytes (length frame)
        then some q
        else (elim (api.send q (rx_item mac frame)) [ none ↦ some q | some r ↦ some r ])
  ]

  -- The loop of `poll` while nothing new arrives, on fuel: `handler` is `g_handler`.
  unfoldable pub poll : {S : Type 0} → ℕ → (List ℕ → List ℕ → ℕ → S → S) → Queue → S → Queue × S
  poll zero handler q s = (q, s)
  poll (suc fuel) handler q s = elim (api.receive q) [
    | none ↦ (q, s)
    | some (item, r) ↦ poll fuel handler r (handler item.mac item.bytes item.len s)
  ]
