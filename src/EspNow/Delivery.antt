-- ===== src/EspNow/Delivery.antt =====
-- main/espnow_transport.cpp: what the WiFi task queues is what the handler gets.
use esp32_s3_rap.Base.{
  ℕ, zero, suc, ◌-◌, ◌<◌, ◌≤◌, ◌≡◌, refl, ap, ◌∙◌, inl, inr, List, [], ◌∷◌, ◌++◌, Option, some,
  arith, length, take, replicate, ltb, ◌==◌, ◌||◌, if◌then◌else◌, length-append, take-append_length,
  append_assoc, append-nil, All, ◌⊎◌, Bool-cases, sym, length-take, u8,
}
use esp32_s3_rap.Base.Queue.{QueueApi, send_cases}
use esp32_s3_rap.EspNow.{max_packet_bytes, RxItem, rx_item, on_data_recv, poll}

-- A frame in the air: its sender's MAC and its bytes.
abbrev pub Frame : Type 0
Frame = List ℕ × List ℕ

-- The handler on frames one after another.
abbrev pub handle_all : {S : Type 0} → (List ℕ → List ℕ → S → S) → List Frame → S → S
handle_all handler [] s = s
handle_all handler ((mac, frame) ∷ frames) s = handle_all handler frames (handler mac frame s)

-- The frames of a length that ESP-NOW allows.
abbrev pub legal : List Frame → List Frame
legal [] = []
legal ((mac, frame) ∷ frames) =
    if length frame == 0 || ltb max_packet_bytes (length frame)
    then legal frames
    else (mac, frame) ∷ legal frames

abbrev pub rx_items : List Frame → List RxItem
rx_items [] = []
rx_items ((mac, frame) ∷ frames) = rx_item mac frame ∷ rx_items frames

-- A handler that reads no byte past the length it is given.
abbrev pub reads : {S : Type 0} → (List ℕ → List ℕ → S → S) → List ℕ → List ℕ → ℕ → S → S
reads handler mac bytes len s = handler mac (take len bytes) s

abbrev pub IsLegal : Frame → Type 0
IsLegal (mac, frame) = (0 < length frame) × (length frame ≤ max_packet_bytes)

legal-All : (frames : List Frame) → All IsLegal (legal frames)
legal-All [] = tt
legal-All ((mac, frame) ∷ frames) = ground (arith, legal-All frames)

All-take : (n : ℕ) (frames : List Frame) → All IsLegal frames → All IsLegal (take n frames)
All-take zero frames h = tt
All-take (suc n) [] h = tt
All-take (suc n) (f ∷ frames) h = (h.0, All-take n frames h.1)

rx_items-append : (xs ys : List Frame) → rx_items (xs ++ ys) ≡ rx_items xs ++ rx_items ys
rx_items-append [] ys = refl
rx_items-append ((mac, frame) ∷ xs) ys = ap (λ l. rx_item mac frame ∷ l) (rx_items-append xs ys)

length-rx_items : (xs : List Frame) → length (rx_items xs) ≡ length xs
length-rx_items [] = refl
length-rx_items ((mac, frame) ∷ xs) = ap suc (length-rx_items xs)

-- The length survives the cast to `uint8_t`, and the bytes are the frame's.
rx_item-bytes :
    (mac frame : List ℕ)
    → IsLegal (mac, frame)
    → take (rx_item mac frame).len (rx_item mac frame).bytes ≡ frame
rx_item-bytes mac frame h =
    take-append_length frame (replicate (max_packet_bytes - length frame) 0) (u8 (length frame))
      (omega arith)

take_nil : (n : ℕ) → take {A = Frame} n [] ≡ []
take_nil zero = refl
take_nil (suc n) = refl

module _ (api : QueueApi RxItem) where
  open api use {Queue, contents, depth}

  abbrev pub arrivals : List Frame → Option Queue → Option Queue
  arrivals [] rx = rx
  arrivals ((mac, frame) ∷ frames) rx = arrivals frames (on_data_recv api mac frame rx)

  poll-empty :
      {S : Type 0} (fuel : ℕ) (handler : List ℕ → List ℕ → ℕ → S → S) (q : Queue) (s : S)
      → contents q ≡ []
      → poll api fuel handler q s ≡ (q, s)
  unfolding poll
  poll-empty zero handler q s e = refl
  poll-empty (suc fuel) handler q s e = rw (api.receive_empty q e, poll) refl

  poll-contents :
      {S : Type 0} (fuel : ℕ) (handler : List ℕ → List ℕ → S → S) (q : Queue) (frames : List Frame)
      (s : S)
      → contents q ≡ rx_items frames
      → All IsLegal frames
      → length frames ≤ fuel
      → (contents (poll api fuel (reads handler) q s).0 ≡ [])
        × ((poll api fuel (reads handler) q s).1 ≡ handle_all handler frames s)
  unfolding poll
  poll-contents fuel handler q [] s e ok enough =
      let p = poll-empty fuel (reads handler) q s e in (rw p e, rw p refl)
  poll-contents zero handler q (f ∷ frames) s e ok enough = absurd (omega arith)
  poll-contents (suc fuel) handler q ((mac, frame) ∷ frames) s e ok enough =
      let (r, got, rest, _) = api.receive_oldest q (rx_item mac frame) (rx_items frames) e in
      rw (got, rx_item-bytes mac frame ok.0, poll)
        (poll-contents fuel handler r frames (handler mac frame s) rest ok.1 (omega arith))

  -- The frame is not a legal one, or finds no room, or joins the queue.
  on_data_recv-cases :
      (mac frame : List ℕ) (frames : List Frame) (q : Queue)
      → ((legal ((mac, frame) ∷ frames) ≡ legal frames)
          × (on_data_recv api mac frame (some q) ≡ some q))
        ⊎ ((legal ((mac, frame) ∷ frames) ≡ (mac, frame) ∷ legal frames)
            × (on_data_recv api mac frame (some q) ≡ some q)
            × (depth q ≤ length (contents q)))
        ⊎ ((r : Queue) × (legal ((mac, frame) ∷ frames) ≡ (mac, frame) ∷ legal frames)
            × (on_data_recv api mac frame (some q) ≡ some r)
            × (length (contents q) < depth q)
            × (contents r ≡ contents q ++ rx_item mac frame ∷ [])
            × (depth r ≡ depth q))
  unfolding on_data_recv
  on_data_recv-cases mac frame frames q =
      elim (Bool-cases (length frame == 0 || ltb max_packet_bytes (length frame))) [
        | inl bad ↦ inl (ground arith, ground arith)
        | inr good ↦ elim (send_cases api q (rx_item mac frame)) [
          | inl (full, refused) ↦ inr (inl (ground arith, ground arith, full))
          | inr (r, room, sent, now, same) ↦
              inr (inr (r, ground arith, ground arith, room, now, same))
        ]
      ]

  arrivals-contents :
      (frames waiting : List Frame) (q : Queue)
      → contents q ≡ rx_items waiting
      → (r : Queue) × (arrivals frames (some q) ≡ some r)
        × (contents r ≡ rx_items (waiting ++ take (depth q - length waiting) (legal frames)))
  arrivals-contents [] waiting q e = (
    q,
    refl,
    e
        ∙ ap rx_items (
            sym
              (ap (λ l. waiting ++ l) (take_nil (depth q - length waiting)) ∙ append-nil waiting)),
  )
  arrivals-contents ((mac, frame) ∷ frames) waiting q e =
      let size = ap length e ∙ length-rx_items waiting in
      elim (on_data_recv-cases mac frame frames q) [
        | inl (skipped, same) ↦ rw (skipped, same) (arrivals-contents frames waiting q e)
        | inr (inl (legal_now, same, full)) ↦
            let nothing : depth q - length waiting ≡ 0 = omega arith in
            let later = arrivals-contents frames waiting q e in
            rw (legal_now, same, nothing) (rw nothing at later)
        | inr (inr (r, legal_now, queued, room, now, depth_same)) ↦
            let one : depth q - length waiting ≡ suc (depth q - suc (length waiting)) =
              omega arith in
            let size_now : length (waiting ++ (mac, frame) ∷ []) ≡ suc (length waiting) =
              length-append waiting ((mac, frame) ∷ []) ∙ omega arith in
            let joined : contents r ≡ rx_items (waiting ++ (mac, frame) ∷ []) =
              now ∙ rw (e, rx_items-append waiting ((mac, frame) ∷ [])) refl in
            let later = arrivals-contents frames (waiting ++ (mac, frame) ∷ []) r joined in
            rw (legal_now, queued, one)
              (rw
                (
                  size_now,
                  depth_same,
                  append_assoc waiting ((mac, frame) ∷ [])
                      (take (depth q - suc (length waiting)) (legal frames)),
                )
                at later)
      ]

  -- Frames that arrive while the queue is empty, and no others: the next poll, with fuel for the
  -- depth of the queue, hands the handler the frames of 1 to 250 bytes among them, each with the
  -- bytes that were sent, in order, as many as the queue holds; then the queue is empty again.
  pub poll-arrivals :
      {S : Type 0} (frames : List Frame) (handler : List ℕ → List ℕ → S → S) (q : Queue) (s : S)
      → contents q ≡ []
      → (r : Queue) × (arrivals frames (some q) ≡ some r)
        × (contents (poll api (depth q) (reads handler) r s).0 ≡ [])
        × ((poll api (depth q) (reads handler) r s).1
            ≡ handle_all handler (take (depth q) (legal frames)) s)
  poll-arrivals frames handler q s e =
      let (r, arrived, now) = arrivals-contents frames [] q e in
      let heard = take (depth q) (legal frames) in
      let room : depth q - length {A = Frame} [] ≡ depth q = omega arith in
      let (done, handled) =
        poll-contents (depth q) handler r heard s (now ∙ rw room refl)
          (All-take (depth q) (legal frames) (legal-All frames))
          (omega (arith, length-take (depth q) (legal frames))) in
      (r, arrived, done, handled)
