-- ===== src/Chain/Deadline.antt =====
-- main/chain_node.cpp: when a packet that waits for its ACK is sent again.
use esp32_s3_rap.Base.{
  ℕ, suc, ◌+◌, ◌<◌, ◌≤◌, ◌≡◌, ◌^◌, refl, ap, ◌∙◌, Bool, true, false, ◌&&◌, List, [], ◌∷◌, ◌++◌,
  arith, ltb, u32, if◌then◌else◌, replicate, Bool-cases, inl, inr,
}
use esp32_s3_rap.Config.{ack_timeout_ms}
use esp32_s3_rap.Protocol.{StatusPacket}
use esp32_s3_rap.Chain.State.{Node}
use esp32_s3_rap.Chain.Effects.{Effect}
use esp32_s3_rap.Chain.Handlers.{begin_forwarding, send_status}
use esp32_s3_rap.Chain.Loop.{Clock, retransmit}

-- The frames that rounds send while a packet waits, one round for each clock.
unfoldable pub resends : {Q : Type 0} → List Clock → Node Q → List Effect
resends [] n = []
resends (t ∷ ts) n = (retransmit t n).1 ++ resends ts (retransmit t n).0

-- Clocks that neither go back nor wrap after `armed`.
abbrev pub Runs : ℕ → List Clock → Type 0
Runs armed [] = Unit {0}
Runs armed (t ∷ ts) = (armed ≤ t.ack_test) × (t.ack_test ≤ t.arm) × (t.arm < 2 ^ 32) × Runs t.arm ts

-- Whether a round is before a deadline that `uint32_t` holds.
abbrev pub is_early : (armed now : ℕ) → Bool
is_early armed now = ltb now (armed + ack_timeout_ms) && ltb (armed + ack_timeout_ms) (2 ^ 32)

-- In how many rounds the packet that was last sent at `armed` is sent again.
abbrev pub due : ℕ → List Clock → ℕ
due armed [] = 0
due armed (t ∷ ts) =
    let again = due t.arm ts in
    let waits = due armed ts in if is_early armed t.ack_test then waits else suc again

-- The packet and its deadline.
abbrev Waits : {Q : Type 0} → ℕ → StatusPacket → Node Q → Type 0
Waits armed packet n = (n.pending ≡ packet) × (n.ack_deadline_ms ≡ u32 (armed + ack_timeout_ms))

Runs-earlier : (a b : ℕ) (ts : List Clock) → a ≤ b → Runs b ts → Runs a ts
Runs-earlier a b [] h runs = tt
Runs-earlier a b (t ∷ ts) h (later, on, fits, runs) = (omega arith, on, fits, runs)

module _ {Q : Type 0} (packet : StatusPacket) where
  retransmit_early :
      (armed : ℕ) (t : Clock) (n : Node Q)
      → armed ≤ t.ack_test
      → t.ack_test < 2 ^ 32
      → Waits armed packet n
      → is_early armed t.ack_test ≡ true
      → ((retransmit t n).1 ≡ []) × ((retransmit t n).0 ≡ n)
  unfolding retransmit
  retransmit_early armed t n later fits waits early = ground arith

  retransmit_due :
      (armed : ℕ) (t : Clock) (n : Node Q)
      → armed ≤ t.ack_test
      → t.ack_test < 2 ^ 32
      → Waits armed packet n
      → is_early armed t.ack_test ≡ false
      → ((retransmit t n).1 ≡ send_status n packet ∷ [])
        × Waits t.arm packet (retransmit t n).0
        × (send_status (retransmit t n).0 packet ≡ send_status n packet)
  unfolding retransmit send_status
  retransmit_due armed t n later fits waits early = ground arith

  resends-due :
      (armed : ℕ) (ts : List Clock) (n : Node Q)
      → Runs armed ts
      → Waits armed packet n
      → resends ts n ≡ replicate (due armed ts) (send_status n packet)
  unfolding resends
  resends-due armed [] n runs waits = refl
  resends-due armed (t ∷ ts) n (later, on, fits, runs) waits =
      elim (Bool-cases (is_early armed t.ack_test)) [
        | inl early ↦
            let (nothing, same) = retransmit_early armed t n later (omega arith) waits early in
            rw (early, nothing, same)
              (resends-due armed ts n (Runs-earlier armed t.arm ts (omega arith) runs) waits)
        | inr late ↦
            let (sent, waits', alike) = retransmit_due armed t n later (omega arith) waits late in
            rw (late, sent)
              (ap (λ l. send_status n packet ∷ l)
                (resends-due t.arm ts (retransmit t n).0 runs waits'
                  ∙ ap (replicate (due t.arm ts)) alike))
      ]

-- Over any number of rounds in which a packet waits for its ACK, while the clock neither goes back nor
-- wraps: what the rounds send is that packet, once for each round at or after its deadline, 300 ms
-- after it was last sent, and once for each round where that deadline is 2^32 or later.
pub resends-begin_forwarding :
    {Q : Type 0} (armed : ℕ) (ts : List Clock) (packet : StatusPacket) (n : Node Q)
    → Runs armed ts
    → resends ts (begin_forwarding armed packet n).0
      ≡ replicate (due armed ts) (send_status n packet)
unfolding begin_forwarding send_status
resends-begin_forwarding armed ts packet n runs =
    resends-due packet armed ts (begin_forwarding armed packet n).0 runs (refl, refl)
