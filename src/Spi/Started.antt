-- ===== src/Spi/Started.antt =====
-- main/luckfox_spi.cpp: `init` on each of its paths.
use esp32_s3_rap.Base.{◌≡◌, Bool, true, some, ◌∷◌, arith, ◌&&◌, is_some, if◌then◌else◌, replicate}
use esp32_s3_rap.Config.{luckfox_spi_chunk_bytes}
use esp32_s3_rap.Drivers.{luckfox_spi_rx}
use esp32_s3_rap.Drivers.Order.{Board, perform_all}
use esp32_s3_rap.Spi.Starting.{Answers, Link, start_slave, init}

abbrev pub has_blocks : Answers → Bool
has_blocks a = is_some a.rx_block && is_some a.tx_block

abbrev pub slave_up : Answers → Bool
slave_up a = has_blocks a && a.slave

abbrev pub board_after : Answers → Board → Board
board_after a b = record b {
  slave = if has_blocks a then a.slave else b.slave;
  tasks = if slave_up a then luckfox_spi_rx ∷ b.tasks else b.tasks;
}

-- What the receiver task uses: its callbacks, a block for what comes in and one of zeros to send.
pub record IsLinked (link : Link) : Type 0 where
  pub frames : link.has_on_frame ≡ true
  pub statuses : link.has_on_status ≡ true
  pub rx : is_some link.rx_scratch ≡ true
  pub tx : link.tx_scratch ≡ some (replicate luckfox_spi_chunk_bytes 0)

pub init_lem :
    (a : Answers) (link : Link) (b : Board)
    → let out = init a link in
      (perform_all out.1 b ≡ some (board_after a b)) × (slave_up a ≡ true → IsLinked out.0)
unfolding init start_slave perform_all
init_lem a link b = (ground arith, λ up. ground arith)
