-- ===== src/Chain/Radio.antt =====
-- main/chain_node.cpp and main/espnow_transport.cpp: what the chain's calls do to ESP-NOW.
use esp32_s3_rap.Base.{
  ℕ, ◌+◌, ◌<◌, ◌≤◌, ◌≡◌, refl, Bool, true, false, List, [], ◌∷◌, ◌++◌, arith, length,
}
use esp32_s3_rap.Chain.State.{Node}
use esp32_s3_rap.Chain.Effects.{Effect, send, broadcast, add_peer, flush, assert_failed}
use esp32_s3_rap.EspNow.Peers
use esp32_s3_rap.EspNow.Peers.{PeerApi, broadcast_mac, add_peer-exist, max_peers}
use esp32_s3_rap.EspNow.{max_packet_bytes}

abbrev pub count_known : Bool → ℕ
count_known true = 1
count_known false = 0

module _ (api : PeerApi) where
  open api use {Table}

  -- The peer table behind a call, and behind several.
  abbrev pub perform : Effect → Table → Table
  perform (send mac bytes) t = t
  perform (broadcast bytes) t = t
  perform (add_peer mac) t = (Peers.add_peer api mac t).1
  perform (flush node_id stream_id occupied plate) t = t
  perform assert_failed t = t

  abbrev pub perform_all : List Effect → Table → Table
  perform_all [] t = t
  perform_all (call ∷ calls) t = perform_all calls (perform call t)

  -- A frame that gets as far as `esp_now_send`, and goes to a peer.
  abbrev pub IsSendable : List ℕ → List ℕ → Table → Type 0
  IsSendable mac bytes t =
      (0 < length bytes)
      × (length bytes ≤ max_packet_bytes)
      × (api.exist t mac ≡ true)
      × (Peers.send api mac bytes t ≡ api.transmit t mac bytes)

  -- What `espnow` makes of a call: frames are sendable, and peers are added.
  abbrev pub IsServed : Effect → Table → Type 0
  IsServed (send mac bytes) t = IsSendable mac bytes t
  IsServed (broadcast bytes) t = IsSendable broadcast_mac bytes t
  IsServed (add_peer mac) t = (Peers.add_peer api mac t).0 ≡ true
  IsServed (flush node_id stream_id occupied plate) t = Unit {0}
  IsServed assert_failed t = Unit {0}

  abbrev pub AllServed : List Effect → Table → Type 0
  AllServed [] t = Unit {0}
  AllServed (call ∷ calls) t = IsServed call t × AllServed calls (perform call t)

  -- The neighbours that a node knows are peers.
  abbrev pub IsPaired : {Q : Type 0} → Node Q → Table → Type 0
  IsPaired n t =
      (n.next_known ≡ true → api.exist t n.next_mac ≡ true)
      × (n.prev_known ≡ true → api.exist t n.prev_mac ≡ true)
      × (api.exist t broadcast_mac ≡ true)
      × (api.count t ≤ 1 + count_known n.next_known + count_known n.prev_known)

  abbrev pub Serves : {Q : Type 0} → Table → Node Q × List Effect → Type 0
  Serves t out = AllServed out.1 t × IsPaired out.0 (perform_all out.1 t)

  pub perform_all-append :
      (xs ys : List Effect) (t : Table)
      → perform_all (xs ++ ys) t ≡ perform_all ys (perform_all xs t)
  perform_all-append [] ys t = refl
  perform_all-append (x ∷ xs) ys t = perform_all-append xs ys (perform x t)

  pub AllServed-append :
      (xs ys : List Effect) (t : Table)
      → AllServed xs t
      → AllServed ys (perform_all xs t)
      → AllServed (xs ++ ys) t
  AllServed-append [] ys t first second = second
  AllServed-append (x ∷ xs) ys t first second =
      (first.0, AllServed-append xs ys (perform x t) first.1 second)

  -- One statement after another.
  pub Serves-append :
      {Q : Type 0}
      → (first second : Node Q × List Effect) (t : Table) → Serves t first
      → Serves (perform_all first.1 t) second
      → Serves t (second.0, first.1 ++ second.1)
  Serves-append first second t served served' = (
    AllServed-append first.1 second.1 t served.0 served'.0,
    rw (perform_all-append first.1 second.1 t) served'.1,
  )

  pub sendable :
      (mac bytes : List ℕ) (t : Table)
      → 0 < length bytes
      → length bytes ≤ max_packet_bytes
      → api.exist t mac ≡ true
      → IsSendable mac bytes t
  unfolding Peers.send
  sendable mac bytes t some_bytes fits there = ground arith
