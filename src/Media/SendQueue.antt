-- ===== src/Media/SendQueue.antt =====
-- cpp/core/media/priority_queue.hpp and retransmit_cache.hpp: the queue of outgoing packets and the
-- packets kept to be sent again. Each mutex makes an operation one step.
pub mod Priority
pub mod Cache
pub mod Window
pub mod Tests
use cascade.Base.{ℕ, ◌+◌, List, [], ◌∷◌, ◌++◌, Option, none, some, ltb, if◌then◌else◌, length}
use cascade.Base.Dict.{find, insert, erase}

pub data PacketPriority : Type 0 where
  high : PacketPriority
  normal : PacketPriority

-- `queues_[0]` and `queues_[1]`.
pub record PriorityPacketQueue : Type 0 where
  pub high_queue : List (List ℕ)
  pub normal_queue : List (List ℕ)

pub push : PacketPriority → List ℕ → PriorityPacketQueue → PriorityPacketQueue
push high packet q = record q { high_queue = q.high_queue ++ packet ∷ [] }
push normal packet q = record q { normal_queue = q.normal_queue ++ packet ∷ [] }

unfoldable pub pop_with_priority :
    PriorityPacketQueue → Option (PacketPriority × List ℕ) × PriorityPacketQueue
pop_with_priority q = elim q.high_queue [
  | front ∷ rest ↦ (some (high, front), record q { high_queue = rest })
  | [] ↦ elim q.normal_queue [
    | front ∷ rest ↦ (some (normal, front), record q { normal_queue = rest })
    | [] ↦ (none, q)
  ]
]

pub pop : PriorityPacketQueue → Option (List ℕ) × PriorityPacketQueue
pop q = elim q.high_queue [
  | front ∷ rest ↦ (some front, record q { high_queue = rest })
  | [] ↦ elim q.normal_queue [
    | front ∷ rest ↦ (some front, record q { normal_queue = rest })
    | [] ↦ (none, q)
  ]
]

unfoldable pub size : PriorityPacketQueue → ℕ
size q = length q.high_queue + length q.normal_queue

pub record RetransmitCache : Type 0 where
  pub capacity : ℕ
  pub cache : List (ℕ × List ℕ)
  pub order : List ℕ

-- `while (order_.size() > capacity_)`: the oldest sequence numbers go.
pub evict : ℕ → List ℕ → List (ℕ × List ℕ) → List ℕ × List (ℕ × List ℕ)
evict capacity [] cache = ([], cache)
evict capacity (front ∷ order) cache =
    let rest = evict capacity order (erase front cache) in
    if ltb capacity (length (front ∷ order)) then rest else (front ∷ order, cache)

pub store : ℕ → List ℕ → RetransmitCache → RetransmitCache
store sequence packet_bytes c =
    let (order, cache) =
      evict c.capacity (c.order ++ sequence ∷ []) (insert sequence packet_bytes c.cache) in
    record c { order = order; cache = cache }

pub get : ℕ → RetransmitCache → Option (List ℕ)
get sequence c = find sequence c.cache
