-- ===== src/Base/Queue.antt =====
-- FreeRTOS queues (freertos/queue.h), which the firmware calls and does not implement: the
-- operations that it uses, with their documented behaviour over the items waiting, oldest first.
use esp32_s3_rap.Base.Lists.{length}
use Prim.Native.Nat.{ℕ, ◌≤◌, ◌<◌}
use mathlib.Core.Path.{◌≡◌, refl}
use mathlib.Core.Logic.{◌⊎◌, inl, inr}
use mathlib.Core.Option.{Option, none, some}
use mathlib.Core.List.{List, [], ◌∷◌, ◌++◌}
use native.Mathlib.Decide.{dec_lt}
use native.Mathlib.Omega.{arith}

-- One kind of queue, for items of type `A`. `create` is xQueueCreate (`none` is a null handle),
-- `send` is xQueueSend (`none` is a result other than pdTRUE), `receive` is xQueueReceive.
pub record QueueApi (A : Type 0) : Type 1 where
  pub Queue : Type 0
  pub create : ℕ → Option Queue
  pub send : Queue → A → Option Queue
  pub receive : Queue → Option (A × Queue)
  pub contents : Queue → List A
  pub depth : Queue → ℕ
  pub create_empty : (n : ℕ) (q : Queue) → create n ≡ some q → (contents q ≡ []) × (depth q ≡ n)
  pub send_room :
      (q : Queue) (a : A)
      → length (contents q) < depth q
      → (r : Queue) × (send q a ≡ some r)
        × (contents r ≡ contents q ++ a ∷ [])
        × (depth r ≡ depth q)
  pub send_full : (q : Queue) (a : A) → depth q ≤ length (contents q) → send q a ≡ none
  pub receive_empty : (q : Queue) → contents q ≡ [] → receive q ≡ none
  pub receive_oldest :
      (q : Queue) (a : A) (rest : List A)
      → contents q ≡ a ∷ rest
      → (r : Queue) × (receive q ≡ some (a, r)) × (contents r ≡ rest) × (depth r ≡ depth q)

module _ {A : Type 0} (api : QueueApi A) where
  open api use {
    Queue, send, receive, contents, depth, send_room, send_full, receive_empty, receive_oldest,
  }

  abbrev pub Sends : Queue → A → Type 0
  Sends q a =
      ((depth q ≤ length (contents q)) × (send q a ≡ none))
      ⊎ ((r : Queue) × (length (contents q) < depth q)
          × (send q a ≡ some r)
          × (contents r ≡ contents q ++ a ∷ [])
          × (depth r ≡ depth q))

  pub send_cases : (q : Queue) (a : A) → Sends q a
  send_cases q a = elim (dec_lt (length (contents q)) (depth q)) [
    | yes h ↦ let s = send_room q a h in inr (s.0, h, s.1, s.2, s.3)
    | no h ↦ inl (omega arith, send_full q a (omega arith))
  ]

  abbrev pub Receives : Queue → List A → Type 0
  Receives q xs =
      ((xs ≡ []) × (receive q ≡ none))
      ⊎ ((a : A) × (r : Queue) × (xs ≡ a ∷ contents r)
          × (receive q ≡ some (a, r))
          × (depth r ≡ depth q))

  receive_split : (q : Queue) (xs : List A) → contents q ≡ xs → Receives q xs
  receive_split q [] e = inl (refl, receive_empty q e)
  receive_split q (a ∷ rest) e =
      let s = receive_oldest q a rest e in inr (a, s.0, ground (arith, s.2), s.1, s.3)

  pub receive_cases : (q : Queue) → Receives q (contents q)
  receive_cases q = receive_split q (contents q) refl
