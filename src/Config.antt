-- ===== src/Config.antt =====
-- main/config.h: the constants that the models use.
use esp32_s3_rap.Base.{ℕ, ◌*◌, Bool, false, List, [], ◌∷◌, Option, some}
use esp32_s3_rap.Drivers.{SpiHost, spi2_host, spi3_host}

-- The node with this id is the Gateway.
abbrev pub gateway_node_id : ℕ
gateway_node_id = 0

abbrev pub max_chain_nodes : ℕ
max_chain_nodes = 64

-- Characters of a plate, without the NUL.
abbrev pub max_plate_len : ℕ
max_plate_len = 11

abbrev pub esp_now_channel : ℕ
esp_now_channel = 1

abbrev pub hello_interval_ms : ℕ
hello_interval_ms = 500

abbrev pub hello_idle_interval_ms : ℕ
hello_idle_interval_ms = 5000

abbrev pub ack_timeout_ms : ℕ
ack_timeout_ms = 300

abbrev pub max_retransmit : ℕ
max_retransmit = 5

abbrev pub status_queue_depth : ℕ
status_queue_depth = 8

abbrev pub status_local_interval_ms : ℕ
status_local_interval_ms = 2000

abbrev pub unprovisioned : ℕ
unprovisioned = 255

abbrev pub eth_spi_host : SpiHost
eth_spi_host = spi3_host

abbrev pub eth_spi_clock_mhz : ℕ
eth_spi_clock_mhz = 8

abbrev pub eth_cs_pin : ℕ
eth_cs_pin = 7

abbrev pub eth_sck_pin : ℕ
eth_sck_pin = 6

abbrev pub eth_miso_pin : ℕ
eth_miso_pin = 5

abbrev pub eth_mosi_pin : ℕ
eth_mosi_pin = 4

-- A pin below 0 is `none`.
abbrev pub eth_int_pin : Option ℕ
eth_int_pin = some 9

abbrev pub eth_mac : List ℕ
eth_mac = 0x02 ∷ 0x52 ∷ 0x41 ∷ 0x50 ∷ 0x00 ∷ 0x01 ∷ []

-- The texts of addresses.
abbrev pub eth_static_ip : List ℕ
eth_static_ip =
    b'1' ∷ b'9' ∷ b'2' ∷ b'.' ∷ b'1' ∷ b'6' ∷ b'8' ∷ b'.' ∷ b'5' ∷ b'0' ∷ b'.' ∷ b'2' ∷ []

abbrev pub eth_static_gateway : List ℕ
eth_static_gateway =
    b'1' ∷ b'9' ∷ b'2' ∷ b'.' ∷ b'1' ∷ b'6' ∷ b'8' ∷ b'.' ∷ b'5' ∷ b'0' ∷ b'.' ∷ b'1' ∷ []

abbrev pub eth_static_netmask : List ℕ
eth_static_netmask =
    b'2' ∷ b'5' ∷ b'5' ∷ b'.' ∷ b'2' ∷ b'5' ∷ b'5' ∷ b'.' ∷ b'2' ∷ b'5' ∷ b'5' ∷ b'.' ∷ b'0' ∷ []

abbrev pub backend_host : List ℕ
backend_host = eth_static_gateway

abbrev pub video_backend_port : ℕ
video_backend_port = 5300

abbrev pub video_uplink_queue_depth : ℕ
video_uplink_queue_depth = 12

abbrev pub video_udp_chunk_bytes : ℕ
video_udp_chunk_bytes = 1400

abbrev pub video_port : ℕ
video_port = 5200

abbrev pub video_ap_password : List ℕ
video_ap_password = b'r' ∷ b'a' ∷ b'p' ∷ b'v' ∷ b'i' ∷ b'd' ∷ b'e' ∷ b'o' ∷ b'1' ∷ []

abbrev pub video_streams_per_node : ℕ
video_streams_per_node = 3

abbrev pub video_max_frame_bytes : ℕ
video_max_frame_bytes = 256 * 1024

abbrev pub video_queue_depth : ℕ
video_queue_depth = 12

abbrev pub stats_log_interval_ms : ℕ
stats_log_interval_ms = 10000

abbrev pub status_uplink_queue_depth : ℕ
status_uplink_queue_depth = 32

abbrev pub video_heartbeat_stream : ℕ
video_heartbeat_stream = 255

abbrev pub self_test_frame_bytes : ℕ
self_test_frame_bytes = 8000

abbrev pub luckfox_spi_host : SpiHost
luckfox_spi_host = spi2_host

abbrev pub luckfox_spi_mosi_pin : ℕ
luckfox_spi_mosi_pin = 11

abbrev pub luckfox_spi_miso_pin : ℕ
luckfox_spi_miso_pin = 13

abbrev pub luckfox_spi_sck_pin : ℕ
luckfox_spi_sck_pin = 12

abbrev pub luckfox_spi_cs_pin : ℕ
luckfox_spi_cs_pin = 10

abbrev pub luckfox_spi_chunk_bytes : ℕ
luckfox_spi_chunk_bytes = 4000

-- Off in production builds.
abbrev pub chain_self_test : Bool
chain_self_test = false
