-- ===== src/Chain/Hop/Receiver.antt =====
-- main/chain_node.cpp: what the receiving end of a hop makes of a packet from its `prev`.
use mathlib.Core.List.{append-nil}
use esp32_s3_rap.Base.{
  ℕ, ◌≡◌, refl, ◌⊎◌, inl, inr, true, false, List, [], ◌∷◌, ◌++◌, Option, none, some, arith, length,
  drop, same_bytes_self, Option-cases,
}
use esp32_s3_rap.Base.Queue.{QueueApi, send_cases}
use esp32_s3_rap.Protocol.{StatusPacket, decode_status, encode_status, encode_ack}
use esp32_s3_rap.Protocol.RoundTrip.{decode-encode_status}
use esp32_s3_rap.Chain.State.{Node}
use esp32_s3_rap.Chain.Effects.{Effect}
use esp32_s3_rap.Chain.Handlers.{
  handle_status, accept_status, is_duplicate, ack_for, message_of, status, on_esp_now_recv,
}
use esp32_s3_rap.Chain.Invariant.{IsPacket}
use esp32_s3_rap.Chain.Hop.{frames_to, taken, taken_in, received, SameReceiver, Fresh}

pub drop-length_append {ℓ} : {A : Type ℓ} (xs ys : List A) → drop (length xs) (xs ++ ys) ≡ ys
drop-length_append [] ys = refl
drop-length_append (x ∷ xs) ys = drop-length_append xs ys

pub drop-length {ℓ} : {A : Type ℓ} (xs : List A) → drop (length xs) xs ≡ []
drop-length [] = refl
drop-length (x ∷ xs) = drop-length xs

pub message_of-encode_status :
    (p : StatusPacket) → IsPacket p → message_of (encode_status p) ≡ status p
unfolding message_of encode_status
message_of-encode_status p v = ground (arith, whole)
  where
    whole : decode_status (encode_status p) ≡ p
    whole =
        let e = decode-encode_status p [] v.seq_fits v.plate_fits in
        rw (append-nil (encode_status p)) at e

module _ (api : QueueApi StatusPacket) where
  open api use {Queue, contents}

  -- The packet that a node's duplicate test compares with.
  abbrev pub Remembers : Node Queue → StatusPacket → Type 0
  Remembers n p =
      (n.has_accepted_any ≡ true)
      × (n.last_accepted_origin ≡ p.origin_node_id)
      × (n.last_accepted_seq ≡ p.seq)

  abbrev pub ack_of : StatusPacket → List ℕ
  ack_of p = encode_ack (ack_for p.origin_node_id p.seq)

  -- A packet seen before is acknowledged again and nothing else happens; a new one is either taken
  -- in, remembered and acknowledged, or refused with no answer.
  abbrev pub Handled : StatusPacket → Node Queue → Node Queue × List Effect → Type 0
  Handled p n out =
      ((is_duplicate p n ≡ true)
        × (out.0 ≡ n)
        × (frames_to n.prev_mac out.1 ≡ ack_of p ∷ [])
        × (taken api p n out ≡ []))
      ⊎ ((is_duplicate p n ≡ false)
          × Remembers out.0 p
          × (out.0.prev_mac ≡ n.prev_mac)
          × (out.0.prev_known ≡ n.prev_known)
          × (frames_to n.prev_mac out.1 ≡ ack_of p ∷ [])
          × (taken api p n out ≡ p ∷ []))
      ⊎ ((is_duplicate p n ≡ false)
          × SameReceiver api n out.0
          × (frames_to n.prev_mac out.1 ≡ [])
          × (taken api p n out ≡ []))

  handle_status-Handled :
      (p : StatusPacket) (n : Node Queue)
      → n.prev_known ≡ true
      → Handled p n (handle_status api n.prev_mac p n)
  unfolding handle_status accept_status frames_to taken
  handle_status-Handled p n k = elim (Option-cases n.out_queue) [
    | inl e ↦ ground (arith, same_bytes_self n.prev_mac, drop-length {A = StatusPacket} [])
    | inr (q, e) ↦ ground (
      arith,
      same_bytes_self n.prev_mac,
      send_cases api q p,
      drop-length (contents q),
      drop-length_append (contents q) (p ∷ []),
    )
  ]

  -- The same for the packet's bytes.
  pub received-Handled :
      (p : StatusPacket) (n : Node Queue)
      → IsPacket p
      → n.prev_known ≡ true
      → (received api (encode_status p) n ≡ handle_status api n.prev_mac p n)
        × (taken_in api (encode_status p) n (received api (encode_status p) n)
            ≡ taken api p n (handle_status api n.prev_mac p n))
        × Handled p n (handle_status api n.prev_mac p n)
  unfolding on_esp_now_recv taken_in
  received-Handled p n v k =
      let e = message_of-encode_status p v in
      (rw (e, on_esp_now_recv), rw (e, on_esp_now_recv, taken_in, e), handle_status-Handled p n k)

  -- The last packet that a node took in, if any.
  abbrev pub Recalls : Node Queue → Option StatusPacket → Type 0
  Recalls n none = n.has_accepted_any ≡ false
  Recalls n (some p) = Remembers n p

  pub duplicate_of_Remembers :
      (p : StatusPacket) (n : Node Queue) → Remembers n p → is_duplicate p n ≡ true
  duplicate_of_Remembers p n r = ground arith

  pub not_duplicate_of_Fresh :
      (l : Option StatusPacket) (p : StatusPacket) (n : Node Queue)
      → Recalls n l
      → Fresh l p
      → is_duplicate p n ≡ false
  not_duplicate_of_Fresh none p n r f = ground arith
  not_duplicate_of_Fresh (some l) p n r f = ground arith

  pub Recalls-SameReceiver :
      (l : Option StatusPacket) (n m : Node Queue)
      → SameReceiver api n m
      → Recalls n l
      → Recalls m l
  Recalls-SameReceiver none n m s r = ground arith
  Recalls-SameReceiver (some l) n m s r = ground arith

  module _ (p : StatusPacket) (n : Node Queue) (bytes : List ℕ) (fits : IsPacket p)
      (copy : bytes ≡ encode_status p) (known : n.prev_known ≡ true) where
    pub received_again :
        Remembers n p
        → ((received api bytes n).0 ≡ n)
          × (frames_to n.prev_mac (received api bytes n).1 ≡ ack_of p ∷ [])
          × (taken_in api bytes n (received api bytes n) ≡ [])
    received_again r =
        rw copy (ground (arith, received-Handled p n fits known, duplicate_of_Remembers p n r))

    pub received_first :
        is_duplicate p n ≡ false
        → (Remembers (received api bytes n).0 p
            × ((received api bytes n).0.prev_known ≡ true)
            × (frames_to n.prev_mac (received api bytes n).1 ≡ ack_of p ∷ [])
            × (taken_in api bytes n (received api bytes n) ≡ p ∷ []))
          ⊎ (SameReceiver api n (received api bytes n).0
              × (frames_to n.prev_mac (received api bytes n).1 ≡ [])
              × (taken_in api bytes n (received api bytes n) ≡ []))
    received_first r = rw copy (ground (arith, received-Handled p n fits known))
