-- ===== src/Chain/Line/Order.antt =====
-- What the invariant of the line says of the readings at its end.
use esp32_s3_rap.Base.{
  ℕ, ◌≡◌, ◌≢◌, refl, sym, ap, ◌∙◌, false, List, [], ◌∷◌, ◌++◌, All, map, append-nil, append_assoc,
}
use esp32_s3_rap.Base.Queue.{QueueApi}
use esp32_s3_rap.Protocol.{StatusPacket}
use esp32_s3_rap.Chain.Handlers.{is_forwarding}
use esp32_s3_rap.Chain.Hop.{waiting_in}
use esp32_s3_rap.Chain.Hop.Phase.{quiet, waiting, answered, true≢false}
use esp32_s3_rap.Chain.Hop.Safety.{Inv}
use esp32_s3_rap.Chain.Line.{Station, id, of_origin}
use esp32_s3_rap.Chain.Line.Invariant.{of_origin-append, hop, IsKept, IsSafe}

-- The first of two lists starts the second.
abbrev pub Prefix : List StatusPacket → List StatusPacket → Type 0
Prefix xs ys = (tail : List StatusPacket) × (ys ≡ xs ++ tail)

Prefix-trans : (xs ys zs : List StatusPacket) → Prefix xs ys → Prefix ys zs → Prefix xs zs
Prefix-trans xs ys zs (t, e) (u, f) = (t ++ u, f ∙ ap (λ l. l ++ u) e ∙ append_assoc xs t u)

Prefix-of_origin :
    (o : ℕ) (xs ys : List StatusPacket) → Prefix xs ys → Prefix (of_origin o xs) (of_origin o ys)
Prefix-of_origin o xs ys (t, e) = (of_origin o t, ap (of_origin o) e ∙ of_origin-append o xs t)

Prefix-empty : (xs ys : List StatusPacket) → Prefix xs ys → ys ≡ [] → xs ≡ []
Prefix-empty [] ys p e = refl
Prefix-empty (x ∷ xs) ys (t, f) e = cc

-- Different numbers.
abbrev pub IsDistinct : List ℕ → Type 0
IsDistinct [] = Unit {0}
IsDistinct (x ∷ xs) = All (λ y. y ≢ x) xs × IsDistinct xs

All-both :
    {P R T : ℕ → Type 0} (xs : List ℕ)
    → ((x : ℕ) → P x → R x → T x)
    → All P xs
    → All R xs
    → All T xs
All-both [] f ps rs = tt
All-both (x ∷ xs) f ps rs = (f x ps.0 rs.0, All-both xs f ps.1 rs.1)

module _ (api : QueueApi StatusPacket) where
  open api use {Queue}

  -- What the Gateway, at the end of the line, has taken in.
  abbrev pub arrived : List (Station api) → List StatusPacket
  arrived [] = []
  arrived (g ∷ []) = g.got
  arrived (s ∷ r ∷ rest) = arrived (r ∷ rest)

  abbrev pub InOrder : List (Station api) → Type 0
  InOrder [] = Unit {0}
  InOrder (g ∷ []) = Unit {0}
  InOrder (s ∷ r ∷ rest) =
      Prefix (of_origin (id api s) (arrived (r ∷ rest))) s.made × InOrder (r ∷ rest)

  pub hop-Prefix :
      (s r : Station api) → IsKept api s → Inv api (hop api s r) → Prefix r.got s.entered
  hop-Prefix s r kept inv = elim inv.phase [
    | quiet f g _ _ _ ↦ (waiting_in api s.node.out_queue, rw (sym g) at kept.fifo)
    | waiting earlier f e g _ _ _ _ ↦ (
      s.node.pending ∷ waiting_in api s.node.out_queue,
      kept.fifo
          ∙ ap (λ l. l ++ waiting_in api s.node.out_queue) e
          ∙ append_assoc earlier (s.node.pending ∷ []) (waiting_in api s.node.out_queue)
          ∙ ap (λ l. l ++ s.node.pending ∷ waiting_in api s.node.out_queue) (sym g),
    )
    | answered earlier f e g _ _ _ _ ↦ (waiting_in api s.node.out_queue, rw (sym g) at kept.fifo)
  ]

  -- Down the line, the packets of an origin that no later node has.
  arrived-Prefix :
      (o : ℕ) (s r : Station api) (rest : List (Station api))
      → All (λ y. y ≢ o) (map (id api) (r ∷ rest))
      → IsSafe api (s ∷ r ∷ rest)
      → Prefix (of_origin o (arrived (r ∷ rest))) (of_origin o s.entered)
  arrived-Prefix o s r [] others (known, kept, inv, later) =
      Prefix-of_origin o r.got s.entered (hop-Prefix s r kept inv)
  arrived-Prefix o s r (x ∷ rest) others (known, kept, inv, later) =
      let on = arrived-Prefix o r x rest others.1 later in
      let hop = Prefix-of_origin o r.got s.entered (hop-Prefix s r kept inv) in
      let relayed = later.1.foreign o (λ e. others.0 (sym e)) in
      Prefix-trans _ (of_origin o r.entered) _ on (rw relayed hop)

  -- At a node none of whose origins, and of those after it, came from before it.
  pub history :
      (s r : Station api) (rest : List (Station api))
      → IsDistinct (map (id api) (s ∷ r ∷ rest))
      → All (λ o. of_origin o s.got ≡ []) (map (id api) (s ∷ r ∷ rest))
      → IsSafe api (s ∷ r ∷ rest)
      → (of_origin (id api s) s.entered ≡ s.made)
        × All (λ o. of_origin o r.got ≡ []) (map (id api) (r ∷ rest))
  history s r rest distinct none_got (known, kept, inv, later) = (
    kept.own none_got.0,
    All-both {P = λ y. y ≢ id api s} {R = λ o. of_origin o s.got ≡ []} (map (id api) (r ∷ rest))
        (λ o other none_of_it.
          Prefix-empty (of_origin o r.got) (of_origin o s.entered)
            (Prefix-of_origin o r.got s.entered (hop-Prefix s r kept inv))
            (kept.foreign o other ∙ none_of_it))
        distinct.0 none_got.1,
  )

  pub safe-InOrder :
      (s : Station api) (rest : List (Station api))
      → IsDistinct (map (id api) (s ∷ rest))
      → All (λ o. of_origin o s.got ≡ []) (map (id api) (s ∷ rest))
      → IsSafe api (s ∷ rest)
      → InOrder (s ∷ rest)
  safe-InOrder s [] distinct none_got safe = tt
  safe-InOrder s (r ∷ rest) distinct none_got safe =
      let (mine, passed) = history s r rest distinct none_got safe in
      (
        rw mine at (arrived-Prefix (id api s) s r rest distinct.0 safe),
        safe-InOrder r rest distinct.1 passed safe.3,
      )

  -- No relay has a packet left.
  abbrev pub IsIdle : List (Station api) → Type 0
  IsIdle [] = Unit {0}
  IsIdle (g ∷ []) = Unit {0}
  IsIdle (s ∷ r ∷ rest) =
      (is_forwarding s.node.state ≡ false)
      × (waiting_in api s.node.out_queue ≡ [])
      × IsIdle (r ∷ rest)

  abbrev pub IsComplete : List (Station api) → Type 0
  IsComplete [] = Unit {0}
  IsComplete (g ∷ []) = Unit {0}
  IsComplete (s ∷ r ∷ rest) =
      (of_origin (id api s) (arrived (r ∷ rest)) ≡ s.made) × IsComplete (r ∷ rest)

  hop_idle :
      (s r : Station api)
      → is_forwarding s.node.state ≡ false
      → waiting_in api s.node.out_queue ≡ []
      → IsKept api s
      → Inv api (hop api s r)
      → r.got ≡ s.entered
  hop_idle s r free empty kept inv =
      let all_sent = kept.fifo ∙ ap (λ l. s.sent ++ l) empty ∙ append-nil s.sent in
      elim inv.phase [
        | quiet f g _ _ _ ↦ g ∙ sym all_sent
        | waiting _ f _ _ _ _ _ _ ↦ absurd (true≢false f free)
        | answered _ f _ _ _ _ _ _ ↦ absurd (true≢false f free)
      ]

  arrived_idle :
      (o : ℕ) (s r : Station api) (rest : List (Station api))
      → All (λ y. y ≢ o) (map (id api) (r ∷ rest))
      → IsIdle (s ∷ r ∷ rest)
      → IsSafe api (s ∷ r ∷ rest)
      → of_origin o (arrived (r ∷ rest)) ≡ of_origin o s.entered
  arrived_idle o s r [] others (free, empty, idle) (known, kept, inv, later) =
      ap (of_origin o) (hop_idle s r free empty kept inv)
  arrived_idle o s r (x ∷ rest) others (free, empty, idle) (known, kept, inv, later) =
      arrived_idle o r x rest others.1 idle later
      ∙ later.1.foreign o (λ e. others.0 (sym e))
      ∙ ap (of_origin o) (hop_idle s r free empty kept inv)

  pub safe-IsComplete :
      (s : Station api) (rest : List (Station api))
      → IsDistinct (map (id api) (s ∷ rest))
      → All (λ o. of_origin o s.got ≡ []) (map (id api) (s ∷ rest))
      → IsIdle (s ∷ rest)
      → IsSafe api (s ∷ rest)
      → IsComplete (s ∷ rest)
  safe-IsComplete s [] distinct none_got idle safe = tt
  safe-IsComplete s (r ∷ rest) distinct none_got idle safe =
      let (mine, passed) = history s r rest distinct none_got safe in
      (
        arrived_idle (id api s) s r rest distinct.0 idle safe ∙ mine,
        safe-IsComplete r rest distinct.1 passed idle.2 safe.3,
      )
