-- ===== src/VideoRelay/Started.antt =====
-- main/video_relay.cpp: `init` on a node whose radio is up.
use esp32_s3_rap.Base.{◌≡◌, refl, ℕ, Bool, true, false, some, ◌∷◌, arith, if◌then◌else◌}
use esp32_s3_rap.Base.Queue.{QueueApi}
use esp32_s3_rap.Drivers.{video_client, video_server}
use esp32_s3_rap.Drivers.Order.{Board, perform_all}
use esp32_s3_rap.Spi.Starting.{Link}
use esp32_s3_rap.Spi.Started
use esp32_s3_rap.Spi.Started.{IsLinked, slave_up}
use esp32_s3_rap.VideoRelay.State.{Frame, Relay}
use esp32_s3_rap.VideoRelay.Starting.{Answers, init}
use esp32_s3_rap.VideoRelay.Setup.{set_up, create_out_queue}

-- A board whose radio is up, and the network with it.
pub record IsOnAir (b : Board) : Type 0 where
  pub radio : b.radio ≡ true
  pub netif : b.netif ≡ true
  pub event_loop : b.event_loop ≡ true
  pub ap_netif : b.ap_netif ≡ true
  pub ap_dhcp : b.ap_dhcp ≡ true

abbrev pub board_after : Answers → Bool → Board → Board
board_after a is_gateway b =
    Started.board_after a.spi (record b {
      tasks = video_server ∷ (if is_gateway then b.tasks else (video_client ∷ b.tasks));
    })

module _ (out : QueueApi Frame) where
  -- Each call comes after those it needs, and the SPI receiver starts only with all it uses.
  pub init_lem :
      (a : Answers) (node_id chain_size : ℕ) (is_gateway : Bool) (relay : Relay out.Queue)
      (link : Link) (b : Board)
      → IsOnAir b
      → let r = init out a node_id chain_size is_gateway relay link in
        (perform_all r.1 b ≡ some (board_after a is_gateway b))
        × (r.0.0 ≡ create_out_queue out (set_up node_id chain_size is_gateway relay))
        × (slave_up a.spi ≡ true → IsLinked r.0.1)
  unfolding init perform_all
  init_lem a node_id chain_size true relay link b ready =
      let source = Started.init_lem a.spi link (record b { tasks = video_server ∷ b.tasks }) in
      (ground (arith, source.0), refl, source.1)
  init_lem a node_id chain_size false relay link b ready =
      let source =
        Started.init_lem a.spi link (record b { tasks = video_server ∷ video_client ∷ b.tasks }) in
      (ground (arith, source.0), refl, source.1)
