-- ===== src/Chain/Line/Numbers.antt =====
-- main/chain_node.cpp: no relay forwards two packets of one identity one after the other, as long as
-- the readings that join their own node's queue have different numbers.
use esp32_s3_rap.Base.{
  ℕ, ◌≡◌, refl, sym, ap, ◌∙◌, inl, inr, List, [], ◌∷◌, ◌++◌, some, arith, All, map, append_assoc,
  Bool-cases, Option-cases, ◌==◌, ==_iff,
}
use esp32_s3_rap.Base.Queue.{QueueApi}
use esp32_s3_rap.Protocol.{StatusPacket}
use esp32_s3_rap.Chain.Loop.{timers}
use esp32_s3_rap.Chain.Hop.{Fresh, last, waiting_in}
use esp32_s3_rap.Chain.Hop.Sender.{timers-Rounded}
use esp32_s3_rap.Chain.Line.{
  Station, id, of_origin, Alternates, IsNumbered, after_round, made_by, LineStep, round,
  lane_reading, greeting, deliver_frame, deliver_ack, lose_frame, lose_ack, nearer,
}
use esp32_s3_rap.Chain.Line.Same.{timers-Apart}
use esp32_s3_rap.Chain.Line.Invariant.{of_origin-append, IsKept, IsSafe, IsKept-round}
use esp32_s3_rap.Chain.Line.Order.{Prefix, IsDistinct, hop-Prefix, history}
use esp32_s3_rap.Chain.Line.Steps.{IsFreshStep, step-some}

Alternates-first : (xs ys : List StatusPacket) → Alternates (xs ++ ys) → Alternates xs
Alternates-first [] ys h = tt
Alternates-first (x ∷ []) ys h = (tt, tt)
Alternates-first (x ∷ y ∷ xs) ys h = (h.0, Alternates-first (y ∷ xs) ys h.1)

Alternates-rest : (xs ys : List StatusPacket) → Alternates (xs ++ ys) → Alternates ys
Alternates-rest [] ys h = h
Alternates-rest (x ∷ xs) ys h = Alternates-rest xs ys h.1

last_split :
    (xs : List StatusPacket) (l : StatusPacket)
    → last xs ≡ some l
    → (front : List StatusPacket) × (xs ≡ front ++ l ∷ [])
unfolding last
last_split [] l e = cc
last_split (x ∷ []) l e = ([], cc)
last_split (x ∷ y ∷ xs) l e =
    let (front, split) = last_split (y ∷ xs) l e in (x ∷ front, ap (λ t. x ∷ t) split)

-- For every origin, its packets.
abbrev AllAlternate : List StatusPacket → Type 0
AllAlternate ps = (o : ℕ) → Alternates (of_origin o ps)

of_origin_self :
    (o : ℕ) (p : StatusPacket) (rest : List StatusPacket)
    → p.origin_node_id ≡ o
    → of_origin o (p ∷ rest) ≡ p ∷ of_origin o rest
unfolding of_origin
of_origin_self o p rest e = ground arith

Fresh-last :
    (sent rest : List StatusPacket) (p : StatusPacket)
    → AllAlternate (sent ++ p ∷ rest)
    → Fresh (last sent) p
Fresh-last sent rest p alternate = elim (Option-cases (last sent)) [
  | inl nothing ↦ rw nothing tt
  | inr (l, e) ↦
      let (front, split) = last_split sent l e in
      rw e (λ same.
        let o = p.origin_node_id in
        let packets : of_origin o (sent ++ p ∷ rest)
            ≡ of_origin o front ++ l ∷ p ∷ of_origin o rest =
          ap (λ t. of_origin o (t ++ p ∷ rest)) split
          ∙ ap (of_origin o) (append_assoc front (l ∷ []) (p ∷ rest))
          ∙ of_origin-append o front (l ∷ p ∷ rest)
          ∙ ap (λ t. of_origin o front ++ t)
              (of_origin_self o l (p ∷ rest) (sym same.0)
                ∙ ap (λ t. l ∷ t) (of_origin_self o p rest refl)) in
        let tail =
          Alternates-rest (of_origin o front) (l ∷ p ∷ of_origin o rest)
            (rw (sym packets) (alternate o)) in
        tail.0 (sym same.1))
]

AllAlternate-Prefix : (xs ys : List StatusPacket) → Prefix xs ys → AllAlternate ys → AllAlternate xs
AllAlternate-Prefix xs ys (t, e) alternate o =
    Alternates-first (of_origin o xs) (of_origin o t)
      (rw (sym (ap (of_origin o) e ∙ of_origin-append o xs t)) (alternate o))

module _ (api : QueueApi StatusPacket) where
  open api use {Queue}

  entered-AllAlternate :
      (s : Station api)
      → IsKept api s
      → of_origin (id api s) s.got ≡ []
      → AllAlternate s.got
      → Alternates s.made
      → AllAlternate s.entered
  entered-AllAlternate s kept none_own got made o = elim (Bool-cases (o == id api s)) [
    | inl own ↦
        let e = (==_iff o (id api s)).0 own in
        rw (ap (λ k. of_origin k s.entered) e ∙ kept.own none_own) made
    | inr other ↦ rw (kept.foreign o (λ e. ground arith)) (got o)
  ]

  -- A node, and the line after it, none of whose readings came from before it.
  abbrev pub Follows : List (Station api) → Type 0
  Follows [] = Unit {0}
  Follows (s ∷ rest) =
      IsDistinct (map (id api) (s ∷ rest))
      × All (λ o. of_origin o s.got ≡ []) (map (id api) (s ∷ rest))
      × AllAlternate s.got
      × IsSafe api (s ∷ rest)

  pub step-IsFreshStep :
      {xs ys : List (Station api)} (step : LineStep api xs ys)
      → Follows xs
      → IsNumbered api ys
      → IsFreshStep api step
  step-IsFreshStep (round s [] t) follows numbered = tt
  step-IsFreshStep (round s (r ∷ rest) t) (distinct, none_got, got, (known, kept, inv, later))
        numbered =
      λ p e.
        let kept' =
          IsKept-round api t s inv.relay (timers-Rounded api t s.node inv.relay).0.1 kept in
        let name = (timers-Apart api t s.node).1 in
        let alternate =
          entered-AllAlternate (after_round api t s) kept'
            (ap (λ k. of_origin k s.got) name ∙ none_got.0) got numbered.0 in
        let left = waiting_in api (timers api t s.node).0.out_queue in
        let split =
          kept'.fifo ∙ ap (λ l. (s.sent ++ l) ++ left) e ∙ append_assoc s.sent (p ∷ []) left in
        Fresh-last s.sent left p (λ o. rw (sym (ap (of_origin o) split)) (alternate o))
  step-IsFreshStep (lane_reading s rest stream_id occupied plate) follows numbered = tt
  step-IsFreshStep (greeting s rest mac packet) follows numbered = tt
  step-IsFreshStep (deliver_frame s r rest bytes others e) follows numbered = tt
  step-IsFreshStep (deliver_ack s rest bytes others e) follows numbered = tt
  step-IsFreshStep (lose_frame s rest bytes others e) follows numbered = tt
  step-IsFreshStep (lose_ack s rest bytes others e) follows numbered = tt
  step-IsFreshStep (nearer s {xs = []} step) follows numbered = absurd (step-some api step refl)
  step-IsFreshStep (nearer s {xs = r ∷ rest} step) (distinct, none_got, got, safe) numbered =
      let (mine, passed) = history api s r rest distinct none_got safe in
      let alternate = entered-AllAlternate s safe.1 none_got.0 got numbered.0 in
      step-IsFreshStep step
        (
          distinct.1,
          passed,
          AllAlternate-Prefix r.got s.entered (hop-Prefix api s r safe.1 safe.2) alternate,
          safe.3,
        )
        numbered.1

  -- The histories only grow.
  pub step-IsNumbered :
      {xs ys : List (Station api)} → LineStep api xs ys → IsNumbered api ys → IsNumbered api xs
  step-IsNumbered (round s rest t) (made, others) =
      (Alternates-first s.made (made_by api t s.node) made, others)
  step-IsNumbered (lane_reading s rest stream_id occupied plate) numbered = numbered
  step-IsNumbered (greeting s rest mac packet) numbered = numbered
  step-IsNumbered (deliver_frame s r rest bytes others e) numbered = numbered
  step-IsNumbered (deliver_ack s rest bytes others e) numbered = numbered
  step-IsNumbered (lose_frame s rest bytes others e) numbered = numbered
  step-IsNumbered (lose_ack s rest bytes others e) numbered = numbered
  step-IsNumbered (nearer s step) (made, others) = (made, step-IsNumbered step others)
