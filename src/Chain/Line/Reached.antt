-- ===== src/Chain/Line/Reached.antt =====
-- main/chain_node.cpp: the readings of every node of a chain reach the Gateway in order, each at most
-- once, and all of them in the end, over links that lose frames.
use esp32_s3_rap.Base.{ℕ, ◌≡◌, refl, ap, ◌∙◌, true, false, List, [], ◌∷◌, arith, All, map}
use esp32_s3_rap.Base.Queue.{QueueApi}
use esp32_s3_rap.Protocol.{StatusPacket}
use esp32_s3_rap.Chain.State.{Node}
use esp32_s3_rap.Chain.Handlers.{
  handle_hello, learn_next, learn_prev, finish_discovery, handle_status, accept_status, handle_ack,
  message_of, dispatch, on_esp_now_recv, Message, ignored, hello, status, ack,
}
use esp32_s3_rap.Chain.Hop.{IsStart}
use esp32_s3_rap.Chain.Hop.Safety.{start-Inv}
use esp32_s3_rap.Chain.Line.{
  Station, id, of_origin, LineStep, round, lane_reading, greeting, deliver_frame, deliver_ack,
  lose_frame, lose_ack, nearer, Leads, here, next, IsNew, IsLine, IsNumbered,
}
use esp32_s3_rap.Chain.Line.Same.{timers-Apart, set_lane_status-Apart}
use esp32_s3_rap.Chain.Line.Invariant.{hop, IsSafe}
use esp32_s3_rap.Chain.Line.Steps.{step-IsSafe, HeadSame}
use esp32_s3_rap.Chain.Line.Numbers.{Follows, step-IsFreshStep, step-IsNumbered}
use esp32_s3_rap.Chain.Line.Order.{
  IsDistinct, InOrder, safe-InOrder, IsIdle, IsComplete, safe-IsComplete,
}

IsDistinct-same : (xs ys : List ℕ) → ys ≡ xs → IsDistinct xs → IsDistinct ys
IsDistinct-same xs ys e distinct = rw e distinct

module _ (api : QueueApi StatusPacket) where
  open api use {Queue}

  dispatch-node_id :
      (mac : List ℕ) (m : Message) (n : Node Queue) → (dispatch api mac m n).0.node_id ≡ n.node_id
  unfolding dispatch handle_hello learn_next learn_prev finish_discovery handle_status accept_status
      handle_ack
  dispatch-node_id mac ignored n = refl
  dispatch-node_id mac (hello packet) n = ground arith
  dispatch-node_id mac (status packet) n = ground arith
  dispatch-node_id mac (ack packet) n = ground arith

  on_esp_now_recv-node_id :
      (mac bytes : List ℕ) (n : Node Queue)
      → (on_esp_now_recv api mac bytes n).0.node_id ≡ n.node_id
  unfolding on_esp_now_recv
  on_esp_now_recv-node_id mac bytes n = dispatch-node_id mac (message_of bytes) n

  step-ids : {xs ys : List (Station api)} → LineStep api xs ys → map (id api) ys ≡ map (id api) xs
  unfolding dispatch
  step-ids (round s rest t) = ap (λ i. i ∷ map (id api) rest) (timers-Apart api t s.node).1
  step-ids (lane_reading s rest stream_id occupied plate) =
      ap (λ i. i ∷ map (id api) rest) (set_lane_status-Apart api stream_id occupied plate s.node).1
  step-ids (greeting s rest mac packet) =
      ap (λ i. i ∷ map (id api) rest) (dispatch-node_id mac (hello packet) s.node)
  step-ids (deliver_frame s r rest bytes others e) =
      ap (λ i. id api s ∷ i ∷ map (id api) rest)
        (on_esp_now_recv-node_id r.node.prev_mac bytes r.node)
  step-ids (deliver_ack s rest bytes others e) =
      ap (λ i. i ∷ map (id api) rest) (on_esp_now_recv-node_id s.node.next_mac bytes s.node)
  step-ids (lose_frame s rest bytes others e) = refl
  step-ids (lose_ack s rest bytes others e) = refl
  step-ids (nearer s step) = ap (λ l. id api s ∷ l) (step-ids step)

  first-IsNew : (s : Station api) (rest : List (Station api)) → IsLine api (s ∷ rest) → IsNew api s
  first-IsNew s [] start = start
  first-IsNew s (r ∷ rest) start = start.0

  hop-IsStart :
      (s r : Station api)
      → IsNew api s
      → IsNew api r
      → s.node.is_gateway ≡ false
      → s.node.next_known ≡ true
      → IsStart api (hop api s r)
  hop-IsStart s r new later relay found = record {
    valid = new.valid;
    relay = relay;
    sender_free = new.sender_free;
    next_found = found;
    prev_found = later.prev_found;
    fresh = later.fresh;
    no_frames = new.no_frames;
    no_acks = new.no_acks;
    none_sent = new.none_sent;
    none_got = later.none_got;
  }

  line-IsSafe : (line : List (Station api)) → IsLine api line → IsSafe api line
  unfolding of_origin
  line-IsSafe [] start = tt
  line-IsSafe (g ∷ []) start = (start.prev_found, start.no_acks)
  line-IsSafe (s ∷ r ∷ rest) (new, relay, found, others, later) = (
    new.prev_found,
    record {
      next_found = found;
      fifo = rw (new.none_entered, new.none_sent, new.no_queue) refl;
      foreign = λ o other. rw (new.none_entered, new.none_got) refl;
      own = λ none_got. rw (new.none_entered, new.none_made) refl;
    },
    start-Inv api (hop api s r) (hop-IsStart s r new (first-IsNew r rest later) relay found),
    line-IsSafe (r ∷ rest) later,
  )

  line-IsDistinct : (line : List (Station api)) → IsLine api line → IsDistinct (map (id api) line)
  line-IsDistinct [] start = tt
  line-IsDistinct (g ∷ []) start = (tt, tt)
  line-IsDistinct (s ∷ r ∷ rest) (new, relay, found, others, later) =
      (others, line-IsDistinct (r ∷ rest) later)

  abbrev first_got : List (Station api) → List StatusPacket
  first_got [] = []
  first_got (s ∷ rest) = s.got

  first_got_same : (xs ys : List (Station api)) → HeadSame api xs ys → first_got ys ≡ first_got xs
  first_got_same [] [] same = refl
  first_got_same [] (b ∷ ys) same = absurd same
  first_got_same (a ∷ xs) [] same = absurd same
  first_got_same (a ∷ xs) (b ∷ ys) same = same.1

  -- What holds wherever the line has come.
  abbrev IsReached : List (Station api) → List (Station api) → Type 0
  IsReached start line =
      IsSafe api line
      × (map (id api) line ≡ map (id api) start)
      × (first_got line ≡ first_got start)

  first_got_none : (line : List (Station api)) → IsLine api line → first_got line ≡ []
  first_got_none [] start = refl
  first_got_none (s ∷ rest) start = (first-IsNew s rest start).none_got

  none_of_any :
      (ids : List ℕ) (got : List StatusPacket) → got ≡ [] → All (λ o. of_origin o got ≡ []) ids
  unfolding of_origin
  none_of_any [] got none_got = tt
  none_of_any (o ∷ ids) got none_got = (rw none_got refl, none_of_any ids got none_got)

  follows :
      (start line : List (Station api)) → IsLine api start → IsReached start line → Follows api line
  unfolding of_origin
  follows start [] new reached = tt
  follows start (s ∷ rest) new (safe, ids, got) =
      let nothing = got ∙ first_got_none start new in
      (
        IsDistinct-same _ _ ids (line-IsDistinct start new),
        none_of_any (map (id api) (s ∷ rest)) s.got nothing,
        λ o. rw nothing tt,
        safe,
      )

  Leads-IsReached :
      {start line : List (Station api)}
      → IsLine api start
      → Leads api start line
      → IsNumbered api line
      → IsReached start line
  Leads-IsReached {start = start} new here numbered = (line-IsSafe start new, refl, refl)
  Leads-IsReached {start = start} new (next {xs = xs} {ys = ys} leads step) numbered =
      let reached = Leads-IsReached new leads (step-IsNumbered api step numbered) in
      let (safe, ids, got) = reached in
      let fresh = step-IsFreshStep api step (follows start xs new reached) numbered in
      let (same, safe') = step-IsSafe api step fresh safe in
      (safe', step-ids step ∙ ids, first_got_same xs ys same ∙ got)

  -- From a line of valid relays with different ids and the Gateway at its end, neighbours known and
  -- nothing sent or accepted yet: whatever rounds, lane readings, HELLOs, deliveries and losses of
  -- frames and ACKs follow, at every relay the readings of that relay which the Gateway has taken in
  -- are the first ones of those that joined its queue, in the same order, each once. Premise: at every
  -- relay, readings that join its own queue one after the other have different sequence numbers: it
  -- fails only where as many as 65,535 readings between two that join find the queue full.
  pub line-InOrder :
      {start line : List (Station api)}
      → IsLine api start
      → Leads api start line
      → IsNumbered api line
      → InOrder api line
  line-InOrder {start = start} {line = []} new leads numbered = tt
  line-InOrder {start = start} {line = s ∷ rest} new leads numbered =
      let (distinct, none_got, alternate, safe) =
        follows start (s ∷ rest) new (Leads-IsReached new leads numbered) in
      safe-InOrder api s rest distinct none_got safe

  -- From such a line, after any such steps and under the same premise on sequence numbers: when no relay has a packet
  -- left that waits for its turn or its ACK, the Gateway has taken in all the readings that joined a
  -- queue: for every relay exactly its own, in their order.
  pub line-IsComplete :
      {start line : List (Station api)}
      → IsLine api start
      → Leads api start line
      → IsNumbered api line
      → IsIdle api line
      → IsComplete api line
  line-IsComplete {start = start} {line = []} new leads numbered idle = tt
  line-IsComplete {start = start} {line = s ∷ rest} new leads numbered idle =
      let (distinct, none_got, alternate, safe) =
        follows start (s ∷ rest) new (Leads-IsReached new leads numbered) in
      safe-IsComplete api s rest distinct none_got idle safe
