-- ===== src/Chain/Neighbours.antt =====
-- main/chain_node.cpp: `init` and the order of the chain.
use native.Mathlib.Nat.{mod-eq_of_lt}
use esp32_s3_rap.Base.{ℕ, zero, suc, ◌%◌, refl, inl, inr, ◌+◌, ◌<◌, ◌≤◌, ◌≡◌, ◌↔◌, ◌⊎◌, ◌-◌, arith}
use esp32_s3_rap.Base.Queue.{QueueApi}
use esp32_s3_rap.Protocol.{StatusPacket}
use esp32_s3_rap.Chain.Loop.{init}
use esp32_s3_rap.Config.{max_chain_nodes}
use esp32_s3_rap.Chain.State.{Node, next_of, prev_of}

abbrev IsPosition : ℕ → ℕ → Type 0
IsPosition node_id chain_size = (node_id < chain_size) × (chain_size ≤ max_chain_nodes)

next_of-cases :
    (a n : ℕ)
    → IsPosition a n
    → ((a + 1 < n) × (next_of a n ≡ a + 1)) ⊎ ((a + 1 ≡ n) × (next_of a n ≡ 0))
next_of-cases a n h = grind arith

wrap-mod : (x n : ℕ) → x < n → (x + n) % n ≡ x
wrap-mod x n h = grind arith

prev_of-cases :
    (b n : ℕ)
    → IsPosition b n
    → ((b ≡ 0) × (prev_of b n ≡ n - 1)) ⊎ ((0 < b) × (prev_of b n ≡ b - 1))
prev_of-cases zero n h = inl (refl, last_node)
  where
    last_node : prev_of zero n ≡ n - 1
    last_node = omega (arith, mod-eq_of_lt {n = 0 + n - 1} {m = n} (omega arith))
prev_of-cases (suc b) n h = inr (omega arith, before)
  where
    shift : suc b + n - 1 ≡ b + n
    shift = omega arith

    before : prev_of (suc b) n ≡ suc b - 1
    before = rw shift (omega (arith, wrap-mod b n (omega arith)))

next_of-iff-prev_of :
    (a b chain_size : ℕ)
    → IsPosition a chain_size
    → IsPosition b chain_size
    → (next_of a chain_size ≡ b) ↔ (prev_of b chain_size ≡ a)
next_of-iff-prev_of a b n ha hb = omega (arith, next_of-cases a n ha, prev_of-cases b n hb)

-- Nodes that `init` gives the positions `a` and `b` of one chain, of at most `kMaxChainNodes` nodes,
-- agree on being neighbours: `a` takes `b` for its `next` exactly when `b` takes `a` for its `prev`.
pub init-neighbours :
    (api : QueueApi StatusPacket) (a b chain_size now later : ℕ) (m n : Node api.Queue)
    → IsPosition a chain_size
    → IsPosition b chain_size
    → ((init api now a chain_size m).0.next_id ≡ b)
      ↔ ((init api later b chain_size n).0.prev_id ≡ a)
unfolding init
init-neighbours api a b chain_size now later m n ha hb = next_of-iff-prev_of a b chain_size ha hb
