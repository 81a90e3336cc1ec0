-- ===== src/Uplink/Starting.antt =====
-- main/gateway_uplink.cpp: `init`, and the socket of `videoUplinkTask`.
use esp32_s3_rap.Base.{ℕ, ◌*◌, Bool, true, false, List, [], Option, none, some, if◌then◌else◌}
use esp32_s3_rap.Base.Queue.{QueueApi}
use esp32_s3_rap.Config.{
  eth_spi_host, eth_spi_clock_mhz, eth_cs_pin, eth_sck_pin, eth_miso_pin, eth_mosi_pin, eth_int_pin,
  eth_mac, eth_static_ip, eth_static_gateway, eth_static_netmask, backend_host, video_backend_port,
}
use esp32_s3_rap.Drivers.{
  IsrResult, BusConfig, W5500Config, status_uplink, video_uplink, Call, create_task,
  install_isr_service, spi_bus_initialize, eth_mac_new, eth_phy_new, mac_del, phy_del,
  eth_driver_install, eth_set_mac_addr, eth_netif_attach, eth_update_input_path, dhcpc_stop,
  eth_set_ip_info, register_eth_events, eth_start, ◌▸◌,
}
use esp32_s3_rap.Drivers.Order.{isr_usable}
use esp32_s3_rap.Uplink.State.{StatusItem, VideoItem, Uplink}
use esp32_s3_rap.Uplink.Queues.{create_queues}

-- What the calls that are looked at answered: ESP_OK, or a pointer other than null.
pub record Answers : Type 0 where
  pub isr : IsrResult
  pub bus : Bool
  pub mac : Bool
  pub phy : Bool
  pub driver : Bool
  pub attach : Bool
  pub start : Bool

abbrev pub bus_config : BusConfig
bus_config = record {
  mosi_io_num = eth_mosi_pin;
  miso_io_num = eth_miso_pin;
  sclk_io_num = eth_sck_pin;
  quadwp_io_num = none;
  quadhd_io_num = none;
}

abbrev pub w5500_config : W5500Config
w5500_config = record {
  mode = 0;
  clock_speed_hz = eth_spi_clock_mhz * 1000 * 1000;
  queue_size = 20;
  spics_io_num = eth_cs_pin;
  int_gpio_num = eth_int_pin;
  poll_period_ms = elim eth_int_pin [ none ↦ some 10 | some pin ↦ none ];
}

abbrev pub Started : Type 0 → Type 0 → Type 0
Started S V = (Bool × Uplink S V) × List Call

module _ {S V : Type 0} where
  -- From the network interface and its glue on, which `eth_netif_attach` attaches.
  unfoldable pub attach_netif : Answers → Uplink S V → Started S V
  attach_netif a u =
      eth_netif_attach a.attach
      ▸ (if a.attach
          then eth_update_input_path
            ▸ dhcpc_stop
            ▸ eth_set_ip_info eth_static_ip eth_static_gateway eth_static_netmask
            ▸ register_eth_events
            ▸ eth_start a.start
            ▸ ((a.start, u), [])
          else ((false, u), []))

  unfoldable pub install_driver : Answers → Uplink S V → Started S V
  unfolding attach_netif
  install_driver a u =
      eth_driver_install a.driver
      ▸ (if a.driver
          then eth_set_mac_addr eth_mac ▸ attach_netif a (record u { has_driver = true })
          else mac_del ▸ phy_del ▸ ((false, u), []))

  -- The MAC and the PHY; the PHY has no reset pin.
  unfoldable pub create_chip : Answers → Uplink S V → Started S V
  unfolding install_driver
  create_chip a u =
      eth_mac_new eth_spi_host w5500_config a.mac
      ▸ (if a.mac
          then eth_phy_new none a.phy
            ▸ (if a.phy then install_driver a u else (mac_del ▸ ((false, u), [])))
          else ((false, u), []))

  unfoldable pub open_bus : Answers → Uplink S V → Started S V
  unfolding create_chip
  open_bus a u =
      install_isr_service a.isr
      ▸ (if isr_usable a.isr
          then spi_bus_initialize eth_spi_host bus_config a.bus
            ▸ (if a.bus then create_chip a u else ((false, u), []))
          else ((false, u), []))

unfoldable pub init :
    (readings : QueueApi StatusItem) (frames : QueueApi VideoItem)
    → Answers
    → Uplink readings.Queue frames.Queue
    → Started readings.Queue frames.Queue
unfolding open_bus create_queues
init readings frames a u =
    create_task status_uplink 4096 4
    ▸ create_task video_uplink 6144 4
    ▸ open_bus a (create_queues readings frames u)

-- The socket of the video task before its loop: whether it sends to where the backend listens
-- (`none` is a task that has ended). `opened` and `connected` are the answers of socket and connect.
unfoldable pub video_socket : (opened connected : Bool) → Option (List ℕ × ℕ)
video_socket opened connected =
    if opened then (if connected then some (backend_host, video_backend_port) else none) else none
