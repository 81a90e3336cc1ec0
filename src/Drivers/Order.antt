-- ===== src/Drivers/Order.antt =====
-- What each call of start-up needs of those before it, and what it leaves behind.
use esp32_s3_rap.Base.{
  ◌≡◌, Bool, true, false, List, [], ◌∷◌, ◌++◌, Option, none, some, refl, ◌&&◌, not,
}
use esp32_s3_rap.Drivers.{
  NvsResult, initialised, IsrResult, isr_failed, Task, luckfox_spi_rx, Call, nvs_flash_init,
  nvs_flash_erase, esp_netif_init, esp_event_loop_create_default, create_default_wifi_ap,
  create_default_wifi_sta, esp_wifi_init, esp_wifi_set_storage_ram, esp_wifi_set_mode_apsta,
  esp_wifi_start, esp_wifi_set_channel, esp_now_init, esp_now_register_recv_cb, add_peer,
  create_task, install_isr_service, spi_bus_initialize, eth_mac_new, eth_phy_new, mac_del, phy_del,
  eth_driver_install, eth_set_mac_addr, eth_netif_attach, eth_update_input_path, dhcpc_stop,
  eth_set_ip_info, register_eth_events, eth_start, spi_slave_initialize, set_pull_up, dhcps_stop,
  ap_set_ip_info, dhcps_start, set_ap_config, register_wifi_events, set_sta_config,
  esp_wifi_connect,
}

-- What is up. `eth_dhcp` and `ap_dhcp` are whether the DHCP client or server runs; `tasks` are those
-- that were created, the last one first.
pub record Board : Type 0 where
  pub flash : Bool
  pub netif : Bool
  pub event_loop : Bool
  pub ap_netif : Bool
  pub sta_netif : Bool
  pub wifi : Bool
  pub apsta : Bool
  pub radio : Bool
  pub esp_now : Bool
  pub isr : Bool
  pub spi_bus : Bool
  pub mac : Bool
  pub phy : Bool
  pub driver : Bool
  pub attached : Bool
  pub eth_dhcp : Bool
  pub eth_events : Bool
  pub eth_up : Bool
  pub slave : Bool
  pub ap_dhcp : Bool
  pub tasks : List Task

abbrev pub powered_up : Board
powered_up = record {
  flash = false;
  netif = false;
  event_loop = false;
  ap_netif = false;
  sta_netif = false;
  wifi = false;
  apsta = false;
  radio = false;
  esp_now = false;
  isr = false;
  spi_bus = false;
  mac = false;
  phy = false;
  driver = false;
  attached = false;
  eth_dhcp = true;
  eth_events = false;
  eth_up = false;
  slave = false;
  ap_dhcp = true;
  tasks = [];
}

abbrev pub needs : Bool → Board → Option Board
needs true b = some b
needs false b = none

abbrev pub is_initialised : NvsResult → Bool
is_initialised initialised = true
is_initialised _ = false

abbrev pub isr_usable : IsrResult → Bool
isr_usable isr_failed = false
isr_usable _ = true

-- The tasks other than the SPI receiver use sockets.
abbrev task_needs : Task → Board → Bool
task_needs luckfox_spi_rx b = b.slave
task_needs _ b = b.netif

-- `none` is a call that comes too early, or that frees what is not there or is in use.
unfoldable pub perform : Call → Board → Option Board
perform (nvs_flash_init result) b = some (record b { flash = is_initialised result })
perform (nvs_flash_erase erased) b = needs (not b.flash) b
perform (esp_netif_init ok) b = some (record b { netif = ok })
perform (esp_event_loop_create_default ok) b = some (record b { event_loop = ok })
perform create_default_wifi_ap b = needs (b.netif && b.event_loop) (record b { ap_netif = true })
perform create_default_wifi_sta b = needs (b.netif && b.event_loop) (record b { sta_netif = true })
perform (esp_wifi_init ok) b = needs (b.flash && b.event_loop) (record b { wifi = ok })
perform esp_wifi_set_storage_ram b = needs b.wifi b
perform (esp_wifi_set_mode_apsta ok) b = needs b.wifi (record b { apsta = ok })
perform (esp_wifi_start ok) b =
    needs (b.apsta && (b.ap_netif && b.sta_netif)) (record b { radio = ok })
perform (esp_wifi_set_channel channel) b = needs b.radio b
perform (esp_now_init ok) b = needs b.radio (record b { esp_now = ok })
perform esp_now_register_recv_cb b = needs b.esp_now b
perform (add_peer address) b = needs b.esp_now b
perform (create_task task stack priority) b =
    needs (task_needs task b) (record b { tasks = task ∷ b.tasks })
perform (install_isr_service result) b = some (record b { isr = isr_usable result })
perform (spi_bus_initialize host bus ok) b = some (record b { spi_bus = ok })
perform (eth_mac_new host chip ok) b =
    needs (b.isr && (b.spi_bus && not b.mac)) (record b { mac = ok })
perform (eth_phy_new reset ok) b = needs (not b.phy) (record b { phy = ok })
perform mac_del b = needs (b.mac && not b.driver) (record b { mac = false })
perform phy_del b = needs (b.phy && not b.driver) (record b { phy = false })
perform (eth_driver_install ok) b = needs (b.mac && b.phy) (record b { driver = ok })
perform (eth_set_mac_addr address) b = needs b.driver b
perform (eth_netif_attach ok) b = needs (b.driver && b.netif) (record b { attached = ok })
perform eth_update_input_path b = needs b.attached b
perform dhcpc_stop b = needs b.attached (record b { eth_dhcp = false })
perform (eth_set_ip_info ip gateway netmask) b = needs (not b.eth_dhcp) b
perform register_eth_events b = needs b.event_loop (record b { eth_events = true })
perform (eth_start ok) b =
    needs (b.attached && (b.eth_events && not b.eth_dhcp)) (record b { eth_up = ok })
perform (spi_slave_initialize host bus slave ok) b = some (record b { slave = ok })
perform (set_pull_up pin) b = some b
perform dhcps_stop b = needs b.ap_netif (record b { ap_dhcp = false })
perform (ap_set_ip_info ip gateway netmask) b = needs (not b.ap_dhcp) b
perform dhcps_start b = needs b.ap_netif (record b { ap_dhcp = true })
perform (set_ap_config config) b = needs (b.radio && b.ap_dhcp) b
perform register_wifi_events b = needs b.event_loop b
perform (set_sta_config config) b = needs b.radio b
perform esp_wifi_connect b = needs b.radio b

abbrev pub and_then : Option Board → (Board → Option Board) → Option Board
and_then none f = none
and_then (some b) f = f b

unfoldable pub perform_all : List Call → Board → Option Board
unfolding perform
perform_all [] b = some b
perform_all (c ∷ calls) b = and_then (perform c b) (perform_all calls)

-- Calls one after another.
pub perform_all-append :
    (first second : List Call) (b : Board)
    → perform_all (first ++ second) b ≡ and_then (perform_all first b) (perform_all second)
unfolding perform_all
perform_all-append [] second b = refl
perform_all-append (c ∷ first) second b =
    elim (perform c b)
      as (λ (r : Option Board).
        and_then r (perform_all (first ++ second))
        ≡ and_then (and_then r (perform_all first)) (perform_all second)) [
          | none ↦ refl
          | some next ↦ perform_all-append first second next
        ]
