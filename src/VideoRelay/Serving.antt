-- ===== src/VideoRelay/Serving.antt =====
-- main/video_relay.cpp: a connection of `prev` against the items that it carries.
use esp32_s3_rap.Base.{
  ℕ, ◌+◌, ◌≡◌, refl, sym, ap, ◌∙◌, ◌⊎◌, inl, inr, true, List, [], ◌∷◌, ◌++◌, Option, none, some,
  arith, length, u32, All, append_assoc, append-nil,
}
use esp32_s3_rap.Base.Queue.{QueueApi}
use esp32_s3_rap.Base.Socket.{RecvApi, IsFinal}
use esp32_s3_rap.Uplink.State.{VideoItem}
use esp32_s3_rap.VideoRelay.State.{Frame}
use esp32_s3_rap.VideoRelay.Frames.{Globals}
use esp32_s3_rap.VideoRelay.Server.{
  Reading, closed, skipped, cut, read_frame, handle_reading, serve,
}
use esp32_s3_rap.VideoRelay.Wire.{Item, beat, frame, wire, wires, IsItem, IsPart}
use esp32_s3_rap.VideoRelay.Ending.{read_frame-short, read_frame-part}
use esp32_s3_rap.VideoRelay.Receiving.{reading_of, read_frame-wire}

module _ {S : Type 0} (out : QueueApi Frame) (up : QueueApi VideoItem) where
  -- The items one after another, each with the allocator's answer for its round.
  abbrev pub handle_items : List Item → List (Option ℕ) → Globals out up S → Globals out up S
  handle_items [] rounds w = w
  handle_items (item ∷ items) [] w = w
  handle_items (item ∷ items) (memory ∷ rounds) w =
      handle_items items rounds (handle_reading out up (reading_of item memory) w).1

  -- A frame for which there was no memory counts as dropped.
  abbrev pub one_more_dropped : Globals out up S → Globals out up S
  one_more_dropped w = record w { relay = record w.relay { v_drop = u32 (w.relay.v_drop + 1) } }

module _ (net : RecvApi) where
  open net use {Stream, remaining}

  module _ {S : Type 0} (out : QueueApi Frame) (up : QueueApi VideoItem) where
    reading_of_goes_on :
        (item : Item) (memory : Option ℕ) (w : Globals out up S)
        → (handle_reading out up (reading_of item memory) w).0 ≡ true
    unfolding handle_reading
    reading_of_goes_on beat memory w = refl
    reading_of_goes_on (frame f) none w = refl
    reading_of_goes_on (frame f) (some address) w = refl

    -- A round of the loop that goes on, and one that ends it.
    serve_more :
        (memory : Option ℕ) (rounds : List (Option ℕ)) (s r : Stream) (reading : Reading)
        (w : Globals out up S)
        → read_frame net memory s ≡ (reading, r)
        → (handle_reading out up reading w).0 ≡ true
        → (serve net out up (memory ∷ rounds) s w).0
          ≡ (serve net out up rounds r (handle_reading out up reading w).1).0
    unfolding serve
    serve_more memory rounds s r reading w e more = rw (serve, e, more, e) refl

    skipped_goes_on : (w : Globals out up S) → (handle_reading out up skipped w).0 ≡ true
    unfolding handle_reading
    skipped_goes_on w = refl

    serve_closed :
        (memory : Option ℕ) (rounds : List (Option ℕ)) (s : Stream) (w : Globals out up S)
        → (read_frame net memory s).0 ≡ closed
        → (serve net out up (memory ∷ rounds) s w).0 ≡ w
    unfolding serve handle_reading
    serve_closed memory rounds s w e = rw (serve, e, e) refl

    serve_cut :
        (memory : Option ℕ) (rounds : List (Option ℕ)) (s : Stream) (address : ℕ)
        (w : Globals out up S)
        → (read_frame net memory s).0 ≡ cut address
        → (serve net out up (memory ∷ rounds) s w).0 ≡ w
    unfolding serve handle_reading
    serve_cut memory rounds s address w e = rw (serve, e, e) refl

    skipped_drops :
        (w : Globals out up S) → (handle_reading out up skipped w).1 ≡ one_more_dropped out up w
    unfolding handle_reading
    skipped_drops w = refl

    serve_nothing :
        (rounds : List (Option ℕ)) (s : Stream) (w : Globals out up S)
        → remaining s ≡ []
        → (serve net out up rounds s w).0 ≡ w
    unfolding serve
    serve_nothing [] s w e = refl
    serve_nothing (memory ∷ rounds) s w e =
        let size = ap length e in
        serve_closed memory rounds s w (read_frame-short net memory s (omega arith))

    serve_part :
        (rounds : List (Option ℕ)) (tail : List ℕ) (s : Stream) (w : Globals out up S)
        → IsPart tail
        → IsFinal net
        → remaining s ≡ tail
        → ((serve net out up rounds s w).0 ≡ w)
          ⊎ ((serve net out up rounds s w).0 ≡ one_more_dropped out up w)
    unfolding serve
    serve_part [] tail s w part final e = inl refl
    serve_part (memory ∷ rounds) tail s w part final e =
        elim (read_frame-part net tail memory s part e) [
          | inl ended ↦ inl (serve_closed memory rounds s w ended)
          | inr (inl (address, ended)) ↦ inl (serve_cut memory rounds s address w ended)
          | inr (inr (went_on, none_left)) ↦
              let r = (read_frame net memory s).1 in
              let same : read_frame net memory s ≡ (skipped, r) =
                ap (λ reading. (reading, r)) went_on in
              inr (
                serve_more memory rounds s r skipped w same (skipped_goes_on w)
                ∙ serve_nothing rounds r (handle_reading out up skipped w).1 (none_left final)
                ∙ skipped_drops w)
        ]

    -- The loop through some items: the rounds are used up, or it goes on behind them.
    serve_through :
        (items : List Item) (tail : List ℕ) (rounds : List (Option ℕ)) (s : Stream)
        (w : Globals out up S)
        → All IsItem items
        → remaining s ≡ wires items ++ tail
        → ((serve net out up rounds s w).0 ≡ handle_items out up items rounds w)
          ⊎ ((later : List (Option ℕ)) × (r : Stream) × ((serve net out up rounds s w).0
                ≡ (serve net out up later r (handle_items out up items rounds w)).0)
              × (remaining r ≡ tail))
    unfolding serve
    serve_through [] tail rounds s w sound e = inr (rounds, s, refl, e)
    serve_through (item ∷ items) tail [] s w sound e = inl refl
    serve_through (item ∷ items) tail (memory ∷ rounds) s w sound e =
        let (r, read, left) =
          read_frame-wire net item memory (wires items ++ tail) s sound.0
            (e ∙ append_assoc (wire item) (wires items) tail) in
        let w' = (handle_reading out up (reading_of item memory) w).1 in
        rw
          (serve_more memory rounds s r (reading_of item memory) w read
            (reading_of_goes_on item memory w))
          (serve_through items tail rounds r w' sound.1 left)

    -- Whatever pieces the bytes come in, and whatever the allocator answers: a connection that
    -- carries some items, and the start of one more before it ends for good, leaves the globals as the items
    -- one after another do, but that the frame that is cut off may count as dropped.
    pub serve-items :
        (items : List Item) (tail : List ℕ) (rounds : List (Option ℕ)) (s : Stream)
        (w : Globals out up S)
        → All IsItem items
        → IsPart tail
        → IsFinal net
        → remaining s ≡ wires items ++ tail
        → ((serve net out up rounds s w).0 ≡ handle_items out up items rounds w)
          ⊎ ((serve net out up rounds s w).0
              ≡ one_more_dropped out up (handle_items out up items rounds w))
    serve-items items tail rounds s w sound part final e =
        elim (serve_through items tail rounds s w sound e) [
          | inl used_up ↦ inl used_up
          | inr (later, r, on, left) ↦
              elim (serve_part later tail r (handle_items out up items rounds w) part final left) [
                | inl same ↦ inl (on ∙ same)
                | inr dropped ↦ inr (on ∙ dropped)
              ]
        ]

    -- With nothing after the items, it leaves them exactly so.
    pub serve-wires :
        (items : List Item) (rounds : List (Option ℕ)) (s : Stream) (w : Globals out up S)
        → All IsItem items
        → remaining s ≡ wires items
        → (serve net out up rounds s w).0 ≡ handle_items out up items rounds w
    serve-wires items rounds s w sound e =
        elim (serve_through items [] rounds s w sound (e ∙ sym (append-nil (wires items)))) [
          | inl used_up ↦ used_up
          | inr (later, r, on, left) ↦
              on ∙ serve_nothing later r (handle_items out up items rounds w) left
        ]
