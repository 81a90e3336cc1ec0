-- ===== src/VideoRelay/Setup.antt =====
-- main/video_relay.cpp: the addresses and the queue that `init` sets up.
use esp32_s3_rap.Base.{
  ℕ, ◌+◌, ◌-◌, ◌%◌, ◌<◌, ◌≤◌, ◌≡◌, ◌≢◌, Bool, List, [], ◌∷◌, ◌++◌, arith, take, u8, decimal,
  if◌then◌else◌,
}
use esp32_s3_rap.Base.Queue.{QueueApi}
use esp32_s3_rap.Config.{max_chain_nodes, video_queue_depth}
use esp32_s3_rap.VideoRelay.State.{Frame, Relay}

-- kApSubnetBase, and sizeof(g_nextIp)
abbrev pub ap_subnet_base : ℕ
ap_subnet_base = 10

abbrev pub ip_size : ℕ
ip_size = 16

-- "192.168.%u.1" into a buffer of `size` bytes, up to its NUL.
abbrev pub print_ip : ℕ → ℕ → List ℕ
print_ip size n =
    take (size - 1)
      (b'1' ∷ b'9' ∷ b'2' ∷ b'.' ∷ b'1' ∷ b'6' ∷ b'8' ∷ b'.' ∷ (decimal n ++ (b'.' ∷ b'1' ∷ [])))

-- The four bytes that `IP4_ADDR` stores for the node's own access point.
abbrev pub ap_address : ℕ → List ℕ
ap_address node_id = 192 ∷ 168 ∷ (ap_subnet_base + node_id) ∷ 1 ∷ []

-- `init`'s globals.
unfoldable pub set_up : {Q : Type 0} → ℕ → ℕ → Bool → Relay Q → Relay Q
set_up node_id chain_size is_gateway relay =
    let next = u8 ((node_id + 1) % chain_size) in
    record relay {
      node_id = node_id;
      chain_size = chain_size;
      is_gateway = is_gateway;
      next_id = next;
      next_ip = print_ip ip_size (ap_subnet_base + next);
    }

-- A relay's queue, after it.
unfoldable pub create_out_queue : (out : QueueApi Frame) → Relay out.Queue → Relay out.Queue
create_out_queue out relay =
    if relay.is_gateway then relay else record relay { out_queue = out.create video_queue_depth }

-- The text of an address, as `inet_pton` reads it.
abbrev pub dotted : List ℕ → List ℕ
dotted [] = []
dotted (a ∷ []) = decimal a
dotted (a ∷ b ∷ rest) = decimal a ++ (b'.' ∷ dotted (b ∷ rest))

next-ne_self :
    (node_id chain_size : ℕ)
    → node_id < chain_size
    → chain_size ≤ max_chain_nodes
    → 1 < chain_size
    → (u8 ((node_id + 1) % chain_size) ≢ node_id)
      × (u8 ((node_id + 1) % chain_size) < max_chain_nodes)
next-ne_self node_id chain_size h m k = grind arith

print_ip-dotted :
    (n : ℕ) → n < max_chain_nodes → print_ip ip_size (ap_subnet_base + n) ≡ dotted (ap_address n)
unfolding decimal
print_ip-dotted n h = ground arith

print_ip_injective :
    (m n : ℕ)
    → m < max_chain_nodes
    → n < max_chain_nodes
    → dotted (ap_address m) ≡ dotted (ap_address n)
    → m ≡ n
unfolding decimal
print_ip_injective m n hm hn e = ground arith

-- In a chain of two nodes or more the client's address, cut off nowhere, is the one that the access
-- point of `next` has, and it is not the node's own.
pub set_up-next_ip :
    (out : QueueApi Frame) (node_id chain_size : ℕ) (is_gateway : Bool) (relay : Relay out.Queue)
    → node_id < chain_size
    → chain_size ≤ max_chain_nodes
    → 1 < chain_size
    → let r = create_out_queue out (set_up node_id chain_size is_gateway relay) in
      (r.next_ip ≡ dotted (ap_address r.next_id)) × (r.next_ip ≢ dotted (ap_address node_id))
unfolding set_up create_out_queue
set_up-next_ip out node_id chain_size is_gateway relay h m k =
    let next = u8 ((node_id + 1) % chain_size) in
    let (other, small) = next-ne_self node_id chain_size h m k in
    let text = print_ip-dotted next small in
    let differs : dotted (ap_address next) ≢ dotted (ap_address node_id) =
      λ e. other (print_ip_injective next node_id small (omega arith) e) in
    ground (arith, text, differs)
