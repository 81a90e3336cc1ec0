-- ===== src/AppMain/Ends.antt =====
-- main/main.cpp: where `app_main` ends up before its main loop, from provisioning on.
use esp32_s3_rap.Base.{
  ℕ, ◌≡◌, refl, sym, ◌∙◌, ap, Bool, true, false, List, [], none, some, arith, ◌==◌, ◌&&◌, is_some,
  if◌then◌else◌, Bool-cases, inl, inr, ◌⊎◌,
}
use esp32_s3_rap.Base.Queue.{QueueApi}
use esp32_s3_rap.Config.{gateway_node_id}
use esp32_s3_rap.Protocol.{StatusPacket}
use esp32_s3_rap.Provisioning
use esp32_s3_rap.Provisioning.{returned, restarted, prompting, load_or_provision}
use esp32_s3_rap.Provisioning.Identity.{IsIdentity}
use esp32_s3_rap.Drivers.{Call}
use esp32_s3_rap.Drivers.Order.{Board, is_initialised, perform_all, perform_all-append, and_then}
use esp32_s3_rap.EspNow.{RxItem, rx_queue_depth}
use esp32_s3_rap.EspNow.Peers
use esp32_s3_rap.EspNow.Peers.{PeerApi, broadcast_mac}
use esp32_s3_rap.EspNow.Starting as Radio
use esp32_s3_rap.EspNow.Starting.{Transport, set_recv_handler}
use esp32_s3_rap.EspNow.Started as RadioStarted
use esp32_s3_rap.EspNow.Started.{esp_now_up}
use esp32_s3_rap.Uplink.State.{StatusItem, VideoItem}
use esp32_s3_rap.Uplink.Started.{driver_up}
use esp32_s3_rap.Spi.Started.{slave_up, IsLinked}
use esp32_s3_rap.VideoRelay.State.{Frame, at_boot}
use esp32_s3_rap.VideoRelay.Setup.{set_up, create_out_queue}
use esp32_s3_rap.AppMain.{start_up}
use esp32_s3_rap.AppMain.Boot.{
  Answers, must_erase, System, Outcome, aborted, halted, running, start_parts, start_radio,
  provision, waiting, restarting,
}
use esp32_s3_rap.AppMain.Parts.{networked, on_air, board_running, start_parts_lem}

-- The flash, with the second try where the first one asks for it.
abbrev pub flash_up : Answers → Bool
flash_up a =
    if must_erase a.nvs then a.erase && is_initialised a.nvs_again else is_initialised a.nvs

abbrev pub network_up : Answers → Bool
network_up a = flash_up a && (a.netif && a.event_loop)

module _ (out : QueueApi StatusPacket) (readings : QueueApi StatusItem)
    (frames : QueueApi VideoItem) (heard : QueueApi RxItem) (relayed : QueueApi Frame)
    (radio : PeerApi) where
  -- The system with which the main loop starts.
  pub record IsSystem (a : Answers) (now node_id chain_size : ℕ) (peers : radio.Table)
      (s : System out readings frames heard relayed radio) : Type 0 where
    pub device :
        s.device ≡ start_up out readings frames (driver_up a.ethernet) now node_id chain_size
    pub rx_queue : s.transport.rx_queue ≡ heard.create rx_queue_depth
    pub handler : s.transport.has_handler ≡ true
    pub paired : s.transport.peers ≡ (Peers.add_peer radio broadcast_mac peers).1
    pub broadcast :
        (Peers.add_peer radio broadcast_mac peers).0 ≡ true
        → radio.exist s.transport.peers broadcast_mac ≡ true
    pub relay :
        s.relay
        ≡ create_out_queue relayed (set_up node_id chain_size (node_id == gateway_node_id) at_boot)
    pub link : slave_up a.video.spi ≡ true → IsLinked s.link

  -- The identity that came out of provisioning.
  abbrev pub Identified : Provisioning.Outcome → ℕ → ℕ → Type 0
  Identified o node_id chain_size =
      (o ≡ returned node_id chain_size) × IsIdentity node_id chain_size

  -- Where start-up ends, and with which board; `o` is how provisioning ended.
  abbrev pub Ends :
      Answers
      → Provisioning.Outcome
      → (now : ℕ) → radio.Table
      → Outcome out readings frames heard relayed radio
      → Board
      → Type 0
  Ends a o now peers aborted b =
      ((network_up a ≡ false) ⊎ (o ≡ Provisioning.aborted)) × (b.tasks ≡ [])
  Ends a o now peers (restarting saved) b =
      (network_up a ≡ true) × (o ≡ restarted saved) × (b.tasks ≡ [])
  Ends a o now peers waiting b = (network_up a ≡ true) × (o ≡ prompting) × (b.tasks ≡ [])
  Ends a o now peers halted b =
      (network_up a ≡ true)
      × ((node_id : ℕ) × (chain_size : ℕ) × Identified o node_id chain_size)
      × ((esp_now_up a.radio && is_some (heard.create rx_queue_depth)) ≡ false)
      × (b.tasks ≡ [])
  Ends a o now peers (running s) b =
      (network_up a ≡ true)
      × ((esp_now_up a.radio && is_some (heard.create rx_queue_depth)) ≡ true)
      × ((node_id : ℕ) × (chain_size : ℕ) × Identified o node_id chain_size
          × (b ≡ board_running a node_id)
          × IsSystem a now node_id chain_size peers s)

  board_after-on_air :
      (a : Radio.Answers) → esp_now_up a ≡ true → RadioStarted.board_after a networked ≡ on_air
  board_after-on_air a up = ground arith

  esp_now :
      {r : Bool} (a : Radio.Answers)
      → r ≡ (esp_now_up a && is_some (heard.create rx_queue_depth))
      → r ≡ true
      → esp_now_up a ≡ true
  esp_now a e started = ground arith

  -- The calls that begin with board `b` can be made in their order, and lead to where `Ends` says.
  abbrev pub Reaches :
      Answers
      → Provisioning.Outcome
      → (now : ℕ) → radio.Table
      → Board
      → Outcome out readings frames heard relayed radio × List Call
      → Type 0
  Reaches a o now peers b r =
      (last : Board) × (perform_all r.1 b ≡ some last) × Ends a o now peers r.0 last

  start_radio-Reaches :
      (a : Answers) (o : Provisioning.Outcome) (now node_id chain_size : ℕ) (peers : radio.Table)
      → network_up a ≡ true
      → Identified o node_id chain_size
      → Reaches a o now peers networked
          (start_radio out readings frames heard relayed radio a now node_id chain_size peers)
  unfolding start_radio
  start_radio-Reaches a o now node_id chain_size peers up found =
      let t : Transport heard.Queue radio.Table = record {
        rx_queue = none;
        has_handler = false;
        peers = peers;
      } in
      let r = Radio.init heard radio a.radio t in
      let (ordered, result, queued) =
        RadioStarted.init_lem heard radio a.radio t networked (record {
          flash = refl;
          event_loop = refl;
          ap_netif = refl;
          sta_netif = refl;
          wifi = refl;
          apsta = refl;
          radio = refl;
          esp_now = refl;
        }) in
      let parts =
        start_parts out readings frames heard relayed radio a now node_id chain_size r.0.1 in
      elim (Bool-cases r.0.0) [
        | inl started ↦
            let (calls, device, transport, relay, link) =
              start_parts_lem out readings frames heard relayed radio a now node_id chain_size
                r.0.1 in
            let paired : parts.0.transport.peers ≡ (Peers.add_peer radio broadcast_mac peers).1 =
              ap (λ (x : Transport heard.Queue radio.Table). x.peers) transport
              ∙ unfold set_recv_handler in (queued started).1 in
            rw started (
              board_running a node_id,
              perform_all-append r.1 parts.1 networked
                  ∙ ap (λ x. and_then x (perform_all parts.1)) ordered
                  ∙ ap (perform_all parts.1)
                      (board_after-on_air a.radio (esp_now a.radio result started))
                  ∙ calls,
              (
                up,
                sym result ∙ started,
                (
                  node_id,
                  chain_size,
                  found,
                  refl,
                  record {
                    device = device;
                    rx_queue =
                        ap (λ (x : Transport heard.Queue radio.Table). x.rx_queue) transport
                        ∙ unfold set_recv_handler in (queued started).0;
                    handler =
                        ap (λ (x : Transport heard.Queue radio.Table). x.has_handler) transport
                        ∙ unfold set_recv_handler in refl;
                    paired = paired;
                    broadcast = λ added.
                        ap (λ (x : radio.Table). radio.exist x broadcast_mac) paired
                        ∙ Peers.add_peer-exist_ok radio broadcast_mac peers added;
                    relay = relay;
                    link = link;
                  },
                ),
              ),
            )
        | inr failed ↦ rw failed (
          RadioStarted.board_after a.radio networked,
          ordered,
          (up, (node_id, chain_size, found), sym result ∙ failed, refl),
        )
      ]

  pub provision-Reaches :
      (a : Answers) (o : Provisioning.Outcome) (now : ℕ) (peers : radio.Table)
      → network_up a ≡ true
      → ((node_id chain_size : ℕ) → o ≡ returned node_id chain_size → IsIdentity node_id chain_size)
      → Reaches a o now peers networked (
          provision out readings frames heard relayed radio o (λ node_id chain_size.
            start_radio out readings frames heard relayed radio a now node_id chain_size peers))
  unfolding provision perform_all
  provision-Reaches a (returned node_id chain_size) now peers up legal =
      start_radio-Reaches a (returned node_id chain_size) now node_id chain_size peers up
        (refl, legal node_id chain_size refl)
  provision-Reaches a (restarted saved) now peers up legal = (networked, refl, (up, refl, refl))
  provision-Reaches a Provisioning.aborted now peers up legal = (networked, refl, (inr refl, refl))
  provision-Reaches a prompting now peers up legal = (networked, refl, (up, refl, refl))
