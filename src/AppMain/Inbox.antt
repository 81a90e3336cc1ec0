-- ===== src/AppMain/Inbox.antt =====
-- main/espnow_transport.cpp and main/chain_node.cpp: `espnow::poll` with the chain's handler.
use esp32_s3_rap.Base.{
  ℕ, ◌≡◌, sym, ap, ◌∙◌, List, [], ◌∷◌, ◌++◌, some, take, append-nil, append_assoc,
}
use esp32_s3_rap.Base.Queue.{QueueApi}
use esp32_s3_rap.Protocol.{StatusPacket}
use esp32_s3_rap.Chain.State.{Node}
use esp32_s3_rap.Chain.Effects.{Effect}
use esp32_s3_rap.Chain.Handlers.{on_esp_now_recv}
use esp32_s3_rap.Chain.Loop
use esp32_s3_rap.EspNow
use esp32_s3_rap.EspNow.{RxItem}
use esp32_s3_rap.EspNow.Delivery.{Frame, handle_all, legal, reads, arrivals, poll-arrivals}

module _ (chain : QueueApi StatusPacket) where
  -- `onEspNowRecv` as the handler: the globals, and the calls so far.
  abbrev pub answer :
      List ℕ → List ℕ → Node chain.Queue × List Effect → Node chain.Queue × List Effect
  answer mac bytes (n, calls) =
      let (n', more) = on_esp_now_recv chain mac bytes n in (n', calls ++ more)

  handle_all-answer :
      (frames : List Frame) (n : Node chain.Queue) (calls : List Effect)
      → handle_all answer frames (n, calls)
        ≡ ((Loop.poll chain frames n).0, calls ++ (Loop.poll chain frames n).1)
  unfolding Loop.poll
  handle_all-answer [] n calls = ap (λ l. (n, l)) (sym (append-nil calls))
  handle_all-answer ((mac, bytes) ∷ frames) n calls =
      let (n', more) = on_esp_now_recv chain mac bytes n in
      handle_all-answer frames n' (calls ++ more)
      ∙ ap (λ l. ((Loop.poll chain frames n').0, l))
          (append_assoc calls more (Loop.poll chain frames n').1)

  -- If some frames arrive while the receive queue is empty, then `espnow::poll`, with fuel for the
  -- depth of the queue, changes the chain's globals and makes its calls as the frames of 1 to 250
  -- bytes among them do one after another, as many as the queue holds.
  pub poll-answer :
      (rx : QueueApi RxItem) (frames : List Frame) (q : rx.Queue) (n : Node chain.Queue)
      → rx.contents q ≡ []
      → (r : rx.Queue) × (arrivals rx frames (some q) ≡ some r)
        × ((EspNow.poll rx (rx.depth q) (reads answer) r (n, [])).1
            ≡ Loop.poll chain (take (rx.depth q) (legal frames)) n)
  poll-answer rx frames q n empty =
      let (r, arrived, done, handled) = poll-arrivals rx frames answer q (n, []) empty in
      (r, arrived, handled ∙ handle_all-answer (take (rx.depth q) (legal frames)) n [])
