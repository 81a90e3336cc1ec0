-- ===== src/Chain/Effects.antt =====
-- What the functions of main/chain_node.cpp ask of the other modules, in the order of the calls.
use esp32_s3_rap.Base.{ℕ, List, [], ◌++◌}
use esp32_s3_rap.Chain.State.{Node}

pub data Effect : Type 0 where
  send : (mac bytes : List ℕ) → Effect  -- espnow::send
  broadcast : (bytes : List ℕ) → Effect  -- espnow::sendBroadcast
  add_peer : (mac : List ℕ) → Effect  -- espnow::addPeer
  flush : (node_id stream_id occupied : ℕ) (plate : List ℕ) → Effect  -- gateway_uplink::flush
  assert_failed : Effect  -- FreeRTOS's configASSERT on a null queue handle

-- A function over the globals: the new globals, and its calls.
abbrev pub Step : Type 0 → Type 0
Step Q = Node Q → Node Q × List Effect

-- One statement after another.
infixl 5 ◌>>◌
abbrev pub ◌>>◌ : {Q : Type 0} → Step Q → Step Q → Step Q
◌>>◌ f g n = let (n', calls) = f n in let (n'', more) = g n' in (n'', calls ++ more)

-- No statement.
abbrev pub skip : {Q : Type 0} → Step Q
skip n = (n, [])
