-- ===== src/Uplink/Started.antt =====
-- main/gateway_uplink.cpp: `init` on each of its paths.
use esp32_s3_rap.Base.{◌≡◌, Bool, true, false, some, ◌∷◌, arith, ◌&&◌, ◌||◌, not}
use esp32_s3_rap.Base.Queue.{QueueApi}
use esp32_s3_rap.Drivers.{video_uplink, status_uplink}
use esp32_s3_rap.Drivers.Order.{Board, isr_usable, perform_all}
use esp32_s3_rap.Uplink.State.{StatusItem, VideoItem, Uplink}
use esp32_s3_rap.Uplink.Queues.{create_queues}
use esp32_s3_rap.Uplink.Starting.{Answers, init}

-- How far `init` came.
abbrev pub bus_up : Answers → Bool
bus_up a = isr_usable a.isr && a.bus

abbrev pub driver_up : Answers → Bool
driver_up a = bus_up a && (a.mac && (a.phy && a.driver))

abbrev pub is_attached : Answers → Bool
is_attached a = driver_up a && a.attach

-- A board with the network up and no Ethernet driver.
pub record IsReady (b : Board) : Type 0 where
  pub netif : b.netif ≡ true
  pub event_loop : b.event_loop ≡ true
  pub mac : b.mac ≡ false
  pub phy : b.phy ≡ false
  pub driver : b.driver ≡ false
  pub attached : b.attached ≡ false
  pub eth_dhcp : b.eth_dhcp ≡ true
  pub eth_events : b.eth_events ≡ false
  pub eth_up : b.eth_up ≡ false
  pub spi_bus : b.spi_bus ≡ false

abbrev pub board_after : Answers → Board → Board
board_after a b = record b {
  isr = isr_usable a.isr;
  spi_bus = bus_up a;
  mac = driver_up a;
  phy = driver_up a;
  driver = driver_up a;
  attached = is_attached a;
  eth_dhcp = not (is_attached a);
  eth_events = is_attached a;
  eth_up = is_attached a && a.start;
  tasks = video_uplink ∷ status_uplink ∷ b.tasks;
}

module _ (readings : QueueApi StatusItem) (frames : QueueApi VideoItem) where
  -- On a board with the network up and no Ethernet driver, whatever fails: `init` returns true exactly
  -- if every call of the drivers whose answer it looks at succeeds (it does not look at others, such as the
  -- handles of the queues and the answers of `xTaskCreate`); it asks for both queues and both tasks on
  -- every path, and the queues' handles are what their creation gave, null or not; the driver's handle
  -- is set exactly if the driver was installed or it was set before; each call comes after those it
  -- needs; and the MAC and the PHY are left exactly with an installed driver, else each one created is
  -- freed once.
  pub init-board_after :
      (a : Answers) (u : Uplink readings.Queue frames.Queue) (b : Board)
      → IsReady b
      → let out = init readings frames a u in
        (out.0.0 ≡ (is_attached a && a.start))
        × (out.0.1
            ≡ record (create_queues readings frames u) { has_driver = driver_up a || u.has_driver })
        × (perform_all out.1 b ≡ some (board_after a b))
  unfolding init perform_all
  init-board_after a u b ready = (ground arith, ground arith, ground arith)
