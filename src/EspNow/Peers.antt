-- ===== src/EspNow/Peers.antt =====
-- main/espnow_transport.cpp: the peer table, and frames on their way out.
use esp32_s3_rap.Base.{
  ℕ, suc, ◌<◌, ◌≤◌, ◌≡◌, refl, Bool, true, false, List, [], ◌∷◌, Option, none, some, arith, length,
  ltb, not, if◌then◌else◌, inl, inr, Bool-cases, Option-cases,
}
use esp32_s3_rap.EspNow.{max_packet_bytes}

-- ESP_NOW_MAX_TOTAL_PEER_NUM
abbrev pub max_peers : ℕ
max_peers = 20

-- ESP-NOW's own peer table (esp_now.h), as the source uses it: `exist` is esp_now_is_peer_exist,
-- `add` and `del` are esp_now_add_peer and esp_now_del_peer (`none` is a result other than ESP_OK),
-- `count` is esp_now_get_peer_num, and `transmit` whether esp_now_send gives ESP_OK.
pub record PeerApi : Type 1 where
  pub Table : Type 0
  pub exist : Table → List ℕ → Bool
  pub add : Table → List ℕ → Option Table
  pub del : Table → List ℕ → Option Table
  pub count : Table → ℕ
  pub transmit : Table → List ℕ → List ℕ → Bool
  pub add_some :
      (t r : Table) (mac : List ℕ)
      → add t mac ≡ some r
      → (exist r mac ≡ true)
        × ((other : List ℕ) → exist t other ≡ true → exist r other ≡ true)
        × (count r ≤ suc (count t))

-- esp_now_add_peer takes a new peer whenever the table has room: it never runs out of memory
-- (ESP_ERR_ESPNOW_NO_MEM).
abbrev pub HasMemory : PeerApi → Type 0
HasMemory api =
    (t : api.Table) (mac : List ℕ)
    → api.count t < max_peers
    → api.exist t mac ≡ false
    → (r : api.Table) × (api.add t mac ≡ some r)

-- kBroadcastMac
abbrev pub broadcast_mac : List ℕ
broadcast_mac = 255 ∷ 255 ∷ 255 ∷ 255 ∷ 255 ∷ 255 ∷ []

module _ (api : PeerApi) where
  open api use {Table}

  unfoldable pub add_peer : List ℕ → Table → Bool × Table
  add_peer mac t =
      if api.exist t mac
      then (true, t)
      else (elim (api.add t mac) [ none ↦ (false, t) | some r ↦ (true, r) ])

  unfoldable pub remove_peer : List ℕ → Table → Bool × Table
  remove_peer mac t =
      if not (api.exist t mac)
      then (true, t)
      else (elim (api.del t mac) [ none ↦ (false, t) | some r ↦ (true, r) ])

  unfoldable pub send : List ℕ → List ℕ → Table → Bool
  send mac bytes t = if ltb max_packet_bytes (length bytes) then false else api.transmit t mac bytes

  unfoldable pub send_broadcast : List ℕ → Table → Bool
  unfolding send
  send_broadcast bytes t = send broadcast_mac bytes t

  -- Where `addPeer` succeeds, the address is a peer.
  pub add_peer-exist_ok :
      (mac : List ℕ) (t : Table)
      → (add_peer mac t).0 ≡ true
      → api.exist (add_peer mac t).1 mac ≡ true
  unfolding add_peer
  add_peer-exist_ok mac t ok = elim (Bool-cases (api.exist t mac)) [
    | inl there ↦ rw there there
    | inr new ↦ elim (Option-cases (api.add t mac)) [
      | inl failed ↦ ground arith
      | inr (r, added) ↦ rw (new, added) (api.add_some t r mac added).0
    ]
  ]

  -- The three peers of a node fit: `addPeer` succeeds on a table with room, whether or not the peer
  -- is there, if memory does not run out.
  pub add_peer-exist :
      HasMemory api
      → (mac : List ℕ) (t : Table) → api.count t < max_peers
      → (r : Table) × (add_peer mac t ≡ (true, r))
        × (api.exist r mac ≡ true)
        × ((other : List ℕ) → api.exist t other ≡ true → api.exist r other ≡ true)
        × (api.count r ≤ suc (api.count t))
  unfolding add_peer
  add_peer-exist memory mac t room = elim (Bool-cases (api.exist t mac)) [
    | inl there ↦ (t, rw there refl, there, λ other known. known, omega arith)
    | inr new ↦
        let (r, added) = memory t mac room new in
        let (now, kept, more) = api.add_some t r mac added in
        (r, rw (new, added) refl, now, kept, omega arith)
  ]
