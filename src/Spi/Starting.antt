-- ===== src/Spi/Starting.antt =====
-- main/luckfox_spi.cpp: `init`.
use esp32_s3_rap.Base.{
  ℕ, Bool, true, false, List, [], Option, none, some, ◌&&◌, is_some, if◌then◌else◌, replicate,
}
use esp32_s3_rap.Config.{
  luckfox_spi_host, luckfox_spi_mosi_pin, luckfox_spi_miso_pin, luckfox_spi_sck_pin,
  luckfox_spi_cs_pin, luckfox_spi_chunk_bytes,
}
use esp32_s3_rap.Drivers.{
  BusConfig, SlaveConfig, luckfox_spi_rx, Call, create_task, spi_slave_initialize, set_pull_up, ◌▸◌,
}

-- The two blocks that heap_caps_malloc gives (their old bytes; null is `none`), and whether
-- spi_slave_initialize gives ESP_OK.
pub record Answers : Type 0 where
  pub rx_block : Option (List ℕ)
  pub tx_block : Option (List ℕ)
  pub slave : Bool

-- g_onFrame and g_onStatus (whether they are set), g_rxScratch and g_txScratch.
pub record Link : Type 0 where
  pub has_on_frame : Bool
  pub has_on_status : Bool
  pub rx_scratch : Option (List ℕ)
  pub tx_scratch : Option (List ℕ)

abbrev pub unlinked : Link
unlinked = record {
  has_on_frame = false;
  has_on_status = false;
  rx_scratch = none;
  tx_scratch = none;
}

abbrev pub bus_config : BusConfig
bus_config = record {
  mosi_io_num = luckfox_spi_mosi_pin;
  miso_io_num = luckfox_spi_miso_pin;
  sclk_io_num = luckfox_spi_sck_pin;
  quadwp_io_num = none;
  quadhd_io_num = none;
}

abbrev pub slave_config : SlaveConfig
slave_config = record { mode = 0; spics_io_num = luckfox_spi_cs_pin; queue_size = 3; flags = 0 }

unfoldable pub start_slave : Answers → Link → Link × List Call
start_slave a link =
    spi_slave_initialize luckfox_spi_host bus_config slave_config a.slave
    ▸ (if a.slave
        then set_pull_up luckfox_spi_mosi_pin
          ▸ set_pull_up luckfox_spi_sck_pin
          ▸ set_pull_up luckfox_spi_cs_pin
          ▸ create_task luckfox_spi_rx 4096 5
          ▸ (link, [])
        else (link, []))

-- With both callbacks.
unfoldable pub init : Answers → Link → Link × List Call
unfolding start_slave
init a link =
    let stored = record link {
      has_on_frame = true;
      has_on_status = true;
      rx_scratch = a.rx_block;
      tx_scratch = a.tx_block;
    } in
    if is_some a.rx_block && is_some a.tx_block
    then start_slave a (record stored { tx_scratch = some (replicate luckfox_spi_chunk_bytes 0) })
    else (stored, [])
