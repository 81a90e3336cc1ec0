-- ===== src/Base/ListQueue.antt =====
-- A queue that meets the assumptions of `QueueApi`, for the witnesses.
use Prim.Native.Nat.{ℕ, ◌≤◌, ◌<◌}
use mathlib.Core.Path.{◌≡◌, refl}
use mathlib.Core.Option.{Option, none, some}
use mathlib.Core.List.{List, [], ◌∷◌, ◌++◌}
use native.Mathlib.Omega.{arith}
use esp32_s3_rap.Base.Tests.{ltb, if◌then◌else◌}
use esp32_s3_rap.Base.Lists.{length}
use esp32_s3_rap.Base.Queue.{QueueApi}

pub record Bounded (A : Type 0) : Type 0 where
  pub items : List A
  pub depth : ℕ

module _ {A : Type 0} where
  abbrev pub list_send : Bounded A → A → Option (Bounded A)
  list_send q a =
      if ltb (length q.items) q.depth then some (record q { items = q.items ++ a ∷ [] }) else none

  abbrev pub pop_items : List A → Bounded A → Option (A × Bounded A)
  pop_items [] q = none
  pop_items (a ∷ rest) q = some (a, record q { items = rest })

  abbrev pub list_receive : Bounded A → Option (A × Bounded A)
  list_receive q = pop_items q.items q

  pub create_lem :
      (n : ℕ) (q : Bounded A)
      → some (record { items = []; depth = n }) ≡ some q
      → (q.items ≡ []) × (q.depth ≡ n)
  create_lem n q e = ground arith

  pub send_room_lem :
      (q : Bounded A) (a : A)
      → length q.items < q.depth
      → (r : Bounded A) × (list_send q a ≡ some r)
        × (r.items ≡ q.items ++ a ∷ [])
        × (r.depth ≡ q.depth)
  send_room_lem q a h = (record q { items = q.items ++ a ∷ [] }, ground arith, refl, refl)

  pub send_full_lem : (q : Bounded A) (a : A) → q.depth ≤ length q.items → list_send q a ≡ none
  send_full_lem q a h = ground arith

  pub receive_empty_lem : (q : Bounded A) → q.items ≡ [] → list_receive q ≡ none
  receive_empty_lem q h = ground arith

  pub receive_oldest_lem :
      (q : Bounded A) (a : A) (rest : List A)
      → q.items ≡ a ∷ rest
      → (r : Bounded A) × (list_receive q ≡ some (a, r)) × (r.items ≡ rest) × (r.depth ≡ q.depth)
  receive_oldest_lem q a rest h = (record q { items = rest }, ground arith, refl, refl)

abbrev pub list_queue : (A : Type 0) → QueueApi A
list_queue A = record {
  Queue = Bounded A;
  create = λ n. some (record { items = []; depth = n });
  send = list_send;
  receive = list_receive;
  contents = λ q. q.items;
  depth = λ q. q.depth;
  create_empty = create_lem;
  send_room = send_room_lem;
  send_full = send_full_lem;
  receive_empty = receive_empty_lem;
  receive_oldest = receive_oldest_lem;
}
