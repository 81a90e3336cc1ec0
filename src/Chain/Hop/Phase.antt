-- ===== src/Chain/Hop/Phase.antt =====
-- The phases of a hop, as the proof of Chain.Hop.Safety follows them.
use esp32_s3_rap.Base.{
  ℕ, ◌≡◌, refl, ◌⊎◌, inl, inr, Bool, true, false, List, [], ◌∷◌, ◌++◌, Option, none, some, All,
}
use esp32_s3_rap.Base.Queue.{QueueApi}
use esp32_s3_rap.Protocol.{StatusPacket, encode_status}
use esp32_s3_rap.Chain.State.{Node}
use esp32_s3_rap.Chain.Handlers.{is_forwarding}
use esp32_s3_rap.Chain.Invariant.{IsPacket}
use esp32_s3_rap.Chain.Hop.{Fresh, last}
use esp32_s3_rap.Chain.Hop.Receiver.{Recalls, Remembers, ack_of}

pub true≢false : {x : Bool} → x ≡ true → x ≡ false → ⊥
true≢false h k = cc

pub last-snoc {ℓ} : {A : Type ℓ} (xs : List A) (x : A) → last (xs ++ x ∷ []) ≡ some x
unfolding last
last-snoc [] x = refl
last-snoc (y ∷ []) x = refl
last-snoc (y ∷ z ∷ rest) x = last-snoc (z ∷ rest) x

pub All-snoc :
    {A : Type 0} (R : A → Type 0) (x : A) (xs : List A) → All R xs → R x → All R (xs ++ x ∷ [])
All-snoc R x [] h r = (r, tt)
All-snoc R x (y ∷ xs) h r = (h.0, All-snoc R x xs h.1 r)

-- First entries that satisfy `P`, then entries that satisfy `R`.
module _ {A : Type 0} (P R : A → Type 0) where
  abbrev pub Run : List A → Type 0
  Run [] = Unit {0}
  Run (x ∷ xs) = (P x × Run xs) ⊎ (R x × All R xs)

  pub Run-of_first : (xs : List A) → All P xs → Run xs
  Run-of_first [] h = tt
  Run-of_first (x ∷ xs) h = inl (h.0, Run-of_first xs h.1)

  pub Run-of_second : (xs : List A) → All R xs → Run xs
  Run-of_second [] h = tt
  Run-of_second (x ∷ xs) h = inr h

  pub Run-snoc : (x : A) (xs : List A) → Run xs → R x → Run (xs ++ x ∷ [])
  Run-snoc x [] h r = inr (r, tt)
  Run-snoc x (y ∷ xs) (inl (p, h)) r = inl (p, Run-snoc x xs h r)
  Run-snoc x (y ∷ xs) (inr (q, h)) r = inr (q, All-snoc R x xs h r)

-- The bytes of a packet, and of its ACK.
abbrev pub IsCopy : Option StatusPacket → List ℕ → Type 0
IsCopy none bytes = ⊥
IsCopy (some p) bytes = IsPacket p × (bytes ≡ encode_status p)

module _ (api : QueueApi StatusPacket) where
  open api use {Queue}

  abbrev pub IsAck : Option StatusPacket → List ℕ → Type 0
  IsAck none bytes = ⊥
  IsAck (some p) bytes = IsPacket p × (bytes ≡ ack_of api p)

  -- Where the hop stands: no packet waits for its ACK; one waits that the receiver has not taken in;
  -- one waits that it has.
  pub data Phase (a b : Node Queue) (frames acks : List (List ℕ)) (sent got : List StatusPacket)
      : Type 0 where
    quiet :
        is_forwarding a.state ≡ false
        → got ≡ sent
        → All (IsCopy (last sent)) frames
        → All (IsAck (last sent)) acks
        → Recalls api b (last sent)
        → Phase a b frames acks sent got
    waiting :
        (s : List StatusPacket)
        → is_forwarding a.state ≡ true
        → sent ≡ s ++ a.pending ∷ []
        → got ≡ s
        → Fresh (last s) a.pending
        → Run (IsCopy (last s)) (IsCopy (some a.pending)) frames
        → All (IsAck (last s)) acks
        → Recalls api b (last s)
        → Phase a b frames acks sent got
    answered :
        (s : List StatusPacket)
        → is_forwarding a.state ≡ true
        → sent ≡ s ++ a.pending ∷ []
        → got ≡ sent
        → Fresh (last s) a.pending
        → All (IsCopy (some a.pending)) frames
        → Run (IsAck (last s)) (IsAck (some a.pending)) acks
        → Remembers api b a.pending
        → Phase a b frames acks sent got
