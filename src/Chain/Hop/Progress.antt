-- ===== src/Chain/Hop/Progress.antt =====
-- main/chain_node.cpp: a hop gets a packet across as soon as one exchange is not lost.
use esp32_s3_rap.Base.{◌<◌, ◌≡◌, ◌⊎◌, true, false, some, length}
use esp32_s3_rap.Base.Queue.{QueueApi}
use esp32_s3_rap.Protocol.{StatusPacket}
use esp32_s3_rap.Chain.State.{Node}

module _ (api : QueueApi StatusPacket) where
  open api use {Queue, contents, depth}

  -- The receiver has a place for one more packet.
  abbrev pub HasRoom : Node Queue → Type 0
  HasRoom n =
      (n.is_gateway ≡ true)
      ⊎ ((q : Queue) × (n.is_gateway ≡ false)
          × (n.out_queue ≡ some q)
          × (length (contents q) < depth q))
