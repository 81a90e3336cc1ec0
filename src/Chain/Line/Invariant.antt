-- ===== src/Chain/Line/Invariant.antt =====
-- The invariant of the whole chain: what holds of a node's own history, and of each hop.
use esp32_s3_rap.Base.{
  ℕ, ◌≡◌, ◌≢◌, refl, sym, ap, ◌∙◌, true, false, List, [], ◌∷◌, ◌++◌, arith, All, append-nil,
  append_assoc,
}
use esp32_s3_rap.Base.Queue.{QueueApi}
use esp32_s3_rap.Protocol.{StatusPacket}
use esp32_s3_rap.Chain.State.{Node}
use esp32_s3_rap.Chain.Loop.{Clock, timers}
use esp32_s3_rap.Chain.Hop.{Hop, started, waiting_in}
use esp32_s3_rap.Chain.Hop.Safety.{Inv}
use esp32_s3_rap.Chain.Line.{Station, id, of_origin, made_by, after_round}
use esp32_s3_rap.Chain.Line.Fifo.{timers-waiting}
use esp32_s3_rap.Chain.Line.Same.{made_by-All, timers-Apart}

pub of_origin-append :
    (o : ℕ) (xs ys : List StatusPacket) → of_origin o (xs ++ ys) ≡ of_origin o xs ++ of_origin o ys
unfolding of_origin
of_origin-append o [] ys = refl
of_origin-append o (x ∷ xs) ys = ground (arith, of_origin-append o xs ys)

of_origin-own :
    (o : ℕ) (xs : List StatusPacket) → All (λ p. p.origin_node_id ≡ o) xs → of_origin o xs ≡ xs
unfolding of_origin
of_origin-own o [] own = refl
of_origin-own o (x ∷ xs) own = ground (arith, of_origin-own o xs, own)

of_origin-foreign :
    (o a : ℕ) (xs : List StatusPacket)
    → All (λ p. p.origin_node_id ≡ a) xs
    → o ≢ a
    → of_origin o xs ≡ []
unfolding of_origin
of_origin-foreign o a [] all other = refl
of_origin-foreign o a (x ∷ xs) all other = ground (arith, of_origin-foreign o a xs, all)

append_empty : {A : Type 0} (xs ys : List A) → xs ++ ys ≡ [] → (xs ≡ []) × (ys ≡ [])
append_empty [] ys e = (refl, e)
append_empty (x ∷ xs) ys e = cc

module _ (api : QueueApi StatusPacket) where
  open api use {Queue}

  -- A station and the one after it.
  abbrev pub hop : Station api → Station api → Hop api
  hop s r = record {
    sender = s.node;
    receiver = r.node;
    frames = s.frames;
    acks = s.acks;
    sent = s.sent;
    got = r.got;
  }

  -- A relay forwards what joined its queue, in order; what joined is what it got and its readings.
  pub record IsKept (s : Station api) : Type 0 where
    pub next_found : s.node.next_known ≡ true
    pub fifo : s.entered ≡ s.sent ++ waiting_in api s.node.out_queue
    pub foreign : (o : ℕ) → o ≢ id api s → of_origin o s.entered ≡ of_origin o s.got
    pub own : of_origin (id api s) s.got ≡ [] → of_origin (id api s) s.entered ≡ s.made

  abbrev pub IsSafe : List (Station api) → Type 0
  IsSafe [] = Unit {0}
  IsSafe (g ∷ []) = (g.node.prev_known ≡ true) × (g.acks ≡ [])
  IsSafe (s ∷ r ∷ rest) =
      (s.node.prev_known ≡ true) × IsKept s × Inv api (hop s r) × IsSafe (r ∷ rest)

  -- The node changes in nothing that the history speaks of.
  pub IsKept-same :
      (s : Station api) (n : Node Queue) (frames acks : List (List ℕ))
      → n.out_queue ≡ s.node.out_queue
      → n.node_id ≡ s.node.node_id
      → n.next_known ≡ s.node.next_known
      → IsKept s
      → IsKept (record s { node = n; frames = frames; acks = acks })
  IsKept-same s n frames acks queue name known k = record {
    next_found = known ∙ k.next_found;
    fifo = rw queue k.fifo;
    foreign = λ o other. k.foreign o (λ e. other (e ∙ sym name));
    own = rw name k.own;
  }

  pub IsKept-round :
      (t : Clock) (s : Station api)
      → s.node.is_gateway ≡ false
      → (timers api t s.node).0.next_known ≡ s.node.next_known
      → IsKept s
      → IsKept (after_round api t s)
  IsKept-round t s relay known k =
      let name = (timers-Apart api t s.node).1 in
      let made = made_by api t s.node in
      let mine = made_by-All api t s.node relay in
      let waits = timers-waiting api t s.node relay in
      let before = waiting_in api s.node.out_queue in
      let n = (timers api t s.node).0 in
      record {
        next_found = known ∙ k.next_found;
        fifo =
            ap (λ l. l ++ made) k.fifo
            ∙ append_assoc s.sent before made
            ∙ ap (λ l. s.sent ++ l) waits
            ∙ sym (append_assoc s.sent (started api s.node n) (waiting_in api n.out_queue));
        foreign = λ o other.
            let stranger : o ≢ s.node.node_id = λ e. other (e ∙ sym name) in
            of_origin-append o s.entered made
            ∙ ap (λ l. of_origin o s.entered ++ l)
                (of_origin-foreign o s.node.node_id made mine stranger)
            ∙ append-nil (of_origin o s.entered)
            ∙ k.foreign o stranger;
        own = rw name (λ none_got.
            of_origin-append s.node.node_id s.entered made
            ∙ ap (λ l. l ++ of_origin s.node.node_id made) (k.own none_got)
            ∙ ap (λ l. s.made ++ l) (of_origin-own s.node.node_id made mine));
      }

  pub IsKept-frame :
      (s : Station api) (n : Node Queue) (came : List StatusPacket)
      → waiting_in api n.out_queue ≡ waiting_in api s.node.out_queue ++ came
      → n.node_id ≡ s.node.node_id
      → n.next_known ≡ s.node.next_known
      → IsKept s
      → IsKept (record s { node = n; got = s.got ++ came; entered = s.entered ++ came })
  IsKept-frame s n came waits name known k = record {
    next_found = known ∙ k.next_found;
    fifo =
        ap (λ l. l ++ came) k.fifo
        ∙ append_assoc s.sent (waiting_in api s.node.out_queue) came
        ∙ ap (λ l. s.sent ++ l) (sym waits);
    foreign = λ o other.
        let stranger : o ≢ s.node.node_id = λ e. other (e ∙ sym name) in
        of_origin-append o s.entered came
        ∙ ap (λ l. l ++ of_origin o came) (k.foreign o stranger)
        ∙ sym (of_origin-append o s.got came);
    own = rw name (λ none_got.
        let (before, now) =
          append_empty (of_origin s.node.node_id s.got) (of_origin s.node.node_id came)
            (sym (of_origin-append s.node.node_id s.got came) ∙ none_got) in
        of_origin-append s.node.node_id s.entered came
        ∙ ap (λ l. l ++ of_origin s.node.node_id came) (k.own before)
        ∙ ap (λ l. s.made ++ l) now
        ∙ append-nil s.made);
  }
