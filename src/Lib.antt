-- ===== src/Lib.antt =====
-- The firmware of a chain of ESP32-S3 nodes that watch parking lanes: a model of its core and the
-- theorems about it.
--
-- Each node gets frames and lane readings from a camera board over SPI, and sends its readings, and
-- those of the nodes before it, along the chain over ESP-NOW. The Gateway, node 0, hands what
-- arrives to an Ethernet uplink. One node's chain and its Gateway's uplink meet in `flush`; the SPI
-- receiver and the chain meet in `setLaneStatus`.
--
-- - Base: Boolean tests, lists with native lengths, C memory (integers that wrap, little-endian
--   reads and writes, `strncpy`, decimal text) and FreeRTOS queues. A queue is a parameter:
--   `Base.Queue.QueueApi` has its operations and the documented laws that the code relies on
--   (bounded, first in first out, a send to a full queue fails). `Base.ListQueue` is one such
--   queue, for the examples.
-- - Config: main/config.h, the constants that the rest uses.
-- - Drivers: the calls of ESP-IDF that start-up makes. `init` of each module, and `app_main`, is a
--   function from the answers of those calls (`Answers`) to the new globals and the calls made
--   (`Drivers.Call`), in order. `Drivers.Order` says what each call needs of those before it. What
--   `xTaskCreate` returns is nowhere looked at, so a task's creation is a call without an answer.
-- - Protocol: main/protocol.h, the packets and their bytes. `encode_*` is the cast of a packed struct
--   to bytes, `decode_*` the `memcpy` back.
-- - Chain: main/chain_node.cpp. `Chain.State.Node` holds the globals. `Chain.Handlers` has
--   `onEspNowRecv`, `handleHello`, `handleStatus`, `handleAck` and what they call; `Chain.Loop` has
--   `init`, `loop` in its parts (`poll`, `timers` and below), `readLocalStatus` and
--   `setLaneStatus`. Each is a step from globals to globals and the calls it makes of other modules
--   (`Chain.Effects.Effect`), in order. What `nowMs()` returns at each call in a round is an argument
--   (`Chain.Loop.Clock`), so two calls in one round may return different times.
--   `Chain.Hop` is one hop of the chain, two nodes and the frames in the air between them, as a step
--   relation in which any frame may be lost. `Chain.Line` is a whole chain of any number of relays and
--   the Gateway, with the same losses, and the history of each node's readings. Duplicates are told by
--   origin and sequence number alone, so that history has to be without two readings of one number in
--   a row (`IsNumbered`), which `Chain.Line.Numbers` carries to every relay on the way.
-- - Uplink: main/gateway_uplink.cpp. `Uplink.State.Uplink` holds the globals. `Uplink.Status` has
--   `flush`, `flushOne` and a round of `statusUplinkTask`; `Uplink.Video` has `flushVideo` and a
--   round of `videoUplinkTask`; `Uplink.Watchdog` has `logStats`; `Uplink.Starting` has `init` and the
--   socket of the video task. What the socket calls return is an
--   argument. A block of the heap is its address and its bytes, so that blocks freed can be counted.
-- - Spi: main/luckfox_spi.cpp. `Spi.Receiver` is `receiverTask` cut at its calls of `transactOnce`:
--   where the task waits is a `Phase`, and each step takes what one transaction brought. Both
--   callbacks are set. `Spi.Starting` has `init`.
-- - VideoRelay: main/video_relay.cpp. `VideoRelay.State.Relay` holds the globals, and
--   `VideoRelay.Frames.World` those and the uplink's, since the Gateway's `sinkFrame` calls
--   `flushVideo`. `VideoRelay.Server` is a connection of `serverTask`, a round for each answer of the
--   allocator; `VideoRelay.Client` one of `clientTask`; `VideoRelay.Socket` has `recvAll` and
--   `sendAll`; `VideoRelay.Frames` has `enqueueOrDrop`, `sinkFrame` and `onLuckfoxFrame`;
--   `VideoRelay.SelfTest` the frames of `selfTestProducerTask`; `VideoRelay.Setup` what `init`
--   stores, `VideoRelay.Wifi` the names of the networks, and `VideoRelay.Starting` all of `init`,
--   `wifiEventHandler`, `allocFrameBuffer` and the server's listening socket. `VideoRelay.Connect` and `Uplink.Connect` are the two copies of `connectWithTimeout`.
--   Sockets are parameters: `Base.Socket` says what `recv` and `send` of lwIP do (the peer's bytes in
--   order in pieces of any size; a `recv` that fails may be followed by more, as after a time-out, if
--   a theorem does not assume that it is the last), `Base.Connect` what a bounded `connect` meets; `Base.ListSocket` has sockets for the examples.
-- - EspNow: main/espnow_transport.cpp. The receive callback and `poll`; `EspNow.Peers` has `addPeer`,
--   `removePeer`, `send` and `sendBroadcast` over ESP-NOW's peer table, a parameter (`PeerApi`), in which adding a peer may fail;
--   `EspNow.Starting` has `init` and `setRecvHandler`.
--   `Chain.Radio` says what the chain's calls do to that table.
-- - Provisioning: main/provisioning.cpp. The scanner behind `sscanf` is an argument that gives the
--   numbers it stores; the console is the list of lines that `fgets` reads.
-- - AppMain: main/main.cpp. `AppMain.Device` is the chain's globals, the uplink's and the main loop's
--   timer; `main_round` is a turn of the main loop, in which the chain's calls of `flush` reach the
--   uplink's queue. `AppMain.Boot` is `app_main` up to there, provisioning
--   included. `AppMain.Inbox` puts `espnow::poll` and the chain's handler together,
--   `AppMain.LaneReading` the SPI receiver and `setLaneStatus`.
--
-- Integers are native numbers, with `u8`, `u16` and `u32` where the C type wraps. Loops over chunks
-- recurse on the number of chunks, those over events and lines on the list of them, without fuel;
-- `EspNow.poll` has fuel, for which the depth of the queue is enough, and so do the loops of
-- `recvAll`, `sendAll` and the server's draining loop: each turn moves a byte at least, so fuel of one
-- more than the number of bytes is enough. An endless task is a run over any finite list of its
-- rounds.
--
-- Not modelled: log output and the diagnostic lines; what the drivers do in the calls of start-up,
-- of which the answers are arguments; the backend's address beyond its text.
pub mod Base
pub mod Config
pub mod Drivers
pub mod Protocol
pub mod Chain
pub mod Uplink
pub mod Spi
pub mod EspNow
pub mod Provisioning
pub mod VideoRelay
pub mod AppMain
