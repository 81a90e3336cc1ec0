-- ===== src/Drivers.antt =====
-- The calls of ESP-IDF that the `init` functions and `app_main` make once, in the order they are
-- made, each with what it answered where the source looks at the answer.
pub mod Order
use esp32_s3_rap.Base.{ℕ, Bool, List, ◌∷◌, Option}

-- The answers of nvs_flash_init and of gpio_install_isr_service that the source tells apart.
pub data NvsResult : Type 0 where
  initialised no_free_pages new_version_found nvs_failed : NvsResult

pub data IsrResult : Type 0 where
  installed already_installed isr_failed : IsrResult

pub data Task : Type 0 where
  status_uplink video_uplink luckfox_spi_rx video_client video_server video_selftest : Task

pub data SpiHost : Type 0 where
  spi2_host spi3_host : SpiHost

-- spi_bus_config_t and spi_slave_interface_config_t; the pin -1 is `none`.
pub record BusConfig : Type 0 where
  pub mosi_io_num : ℕ
  pub miso_io_num : ℕ
  pub sclk_io_num : ℕ
  pub quadwp_io_num : Option ℕ
  pub quadhd_io_num : Option ℕ

pub record SlaveConfig : Type 0 where
  pub mode : ℕ
  pub spics_io_num : ℕ
  pub queue_size : ℕ
  pub flags : ℕ

-- What spi_device_interface_config_t and eth_w5500_config_t say of the chip; `poll_period_ms` is
-- `none` where the default stays.
pub record W5500Config : Type 0 where
  pub mode : ℕ
  pub clock_speed_hz : ℕ
  pub queue_size : ℕ
  pub spics_io_num : ℕ
  pub int_gpio_num : Option ℕ
  pub poll_period_ms : Option ℕ

-- wifi_config_t, for the access point and for the station.
pub record ApConfig : Type 0 where
  pub ssid : List ℕ
  pub ssid_len : ℕ
  pub password : List ℕ
  pub channel : ℕ
  pub max_connection : ℕ

pub record StaConfig : Type 0 where
  pub ssid : List ℕ
  pub password : List ℕ
  pub channel : ℕ

pub data Call : Type 0 where
  nvs_flash_init : NvsResult → Call
  nvs_flash_erase : Bool → Call
  esp_netif_init : Bool → Call
  esp_event_loop_create_default : Bool → Call
  create_default_wifi_ap : Call
  create_default_wifi_sta : Call
  esp_wifi_init : Bool → Call
  esp_wifi_set_storage_ram : Call
  esp_wifi_set_mode_apsta : Bool → Call
  esp_wifi_start : Bool → Call
  esp_wifi_set_channel : ℕ → Call
  esp_now_init : Bool → Call
  esp_now_register_recv_cb : Call
  add_peer : List ℕ → Call  -- espnow::addPeer
  create_task : Task → (stack priority : ℕ) → Call  -- xTaskCreate, its answer not looked at
  install_isr_service : IsrResult → Call
  spi_bus_initialize : SpiHost → BusConfig → Bool → Call
  eth_mac_new : SpiHost → W5500Config → Bool → Call
  eth_phy_new : Option ℕ → Bool → Call
  mac_del : Call
  phy_del : Call
  eth_driver_install : Bool → Call
  eth_set_mac_addr : List ℕ → Call
  eth_netif_attach : Bool → Call
  eth_update_input_path : Call
  dhcpc_stop : Call
  eth_set_ip_info : (ip gateway netmask : List ℕ) → Call
  register_eth_events : Call
  eth_start : Bool → Call
  spi_slave_initialize : SpiHost → BusConfig → SlaveConfig → Bool → Call
  set_pull_up : ℕ → Call
  dhcps_stop : Call
  ap_set_ip_info : (ip gateway netmask : List ℕ) → Call
  dhcps_start : Call
  set_ap_config : ApConfig → Call
  register_wifi_events : Call
  set_sta_config : StaConfig → Call
  esp_wifi_connect : Call

-- A call, and then what the rest of a function gives.
infixr 66 ◌▸◌
abbrev pub ◌▸◌ : {S : Type 0} → Call → S × List Call → S × List Call
c ▸ (s, calls) = (s, c ∷ calls)
