-- ===== src/EspNow/ListPeers.antt =====
-- A peer table that meets the assumptions of `PeerApi`, for the witnesses.
use esp32_s3_rap.Base.{
  ℕ, suc, ◌≤◌, ◌≡◌, Bool, true, false, ◌||◌, List, [], ◌∷◌, Option, none, some, arith, length, ltb,
  same_bytes, same_bytes_self, if◌then◌else◌,
}
use esp32_s3_rap.EspNow.Peers.{PeerApi, HasMemory, max_peers}

abbrev pub list_exist : List (List ℕ) → List ℕ → Bool
list_exist [] mac = false
list_exist (peer ∷ peers) mac = same_bytes peer mac || list_exist peers mac

abbrev pub list_add : List (List ℕ) → List ℕ → Option (List (List ℕ))
list_add peers mac = if ltb (length peers) max_peers then some (mac ∷ peers) else none

-- The driver takes every frame to a peer.
abbrev pub list_transmit : List (List ℕ) → List ℕ → List ℕ → Bool
list_transmit peers mac bytes = list_exist peers mac

-- Without the peer.
abbrev pub list_del : List (List ℕ) → List ℕ → Option (List (List ℕ))
list_del [] mac = none
list_del (peer ∷ peers) mac =
    let rest : Option (List (List ℕ)) = elim (list_del peers mac) [
      | none ↦ none
      | some others ↦ some (peer ∷ others)
    ] in
    if same_bytes peer mac then some peers else rest

pub list_add-some :
    (t r : List (List ℕ)) (mac : List ℕ)
    → list_add t mac ≡ some r
    → (list_exist r mac ≡ true)
      × ((other : List ℕ) → list_exist t other ≡ true → list_exist r other ≡ true)
      × (length r ≤ suc (length t))
list_add-some t r mac e =
    let self = same_bytes_self mac in (ground arith, λ other there. ground arith, ground arith)

abbrev pub list_peers : PeerApi
list_peers = record {
  Table = List (List ℕ);
  exist = list_exist;
  add = list_add;
  del = list_del;
  count = length;
  transmit = list_transmit;
  add_some = list_add-some;
}

pub list_peers-HasMemory : HasMemory list_peers
list_peers-HasMemory t mac room new = (mac ∷ t, ground arith)
