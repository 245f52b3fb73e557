-- ===== src/Media/SendQueue/Tests.antt =====
-- The theorems on the outgoing packets at concrete inputs.
use cascade.Base.{ℕ, ◌≤◌, ◌≡◌, List, [], ◌∷◌, ◌++◌, some, arith, length}
use cascade.Media.SendQueue.{
  PacketPriority, high, normal, PriorityPacketQueue, RetransmitCache, size, store, get,
}
use cascade.Media.SendQueue.Priority.{push_all, pop_all, of_high, of_normal, pop_all-push_all}
use cascade.Media.SendQueue.Cache.{get-store}

abbrev traffic : List (PacketPriority × List ℕ)
traffic = (normal, 1 ∷ []) ∷ (high, 2 ∷ []) ∷ (normal, 3 ∷ []) ∷ []

abbrev queued : PriorityPacketQueue
queued = push_all traffic (record { high_queue = []; normal_queue = [] })

pop_all-push_all_example : pop_all (size queued) queued ≡ of_high traffic ++ of_normal traffic
pop_all-push_all_example = pop_all-push_all traffic

abbrev two_packets : RetransmitCache
two_packets = record { capacity = 2; cache = (7, 1 ∷ []) ∷ (8, 2 ∷ []) ∷ []; order = 7 ∷ 8 ∷ [] }

get-store_example :
    (get 9 (store 9 (5 ∷ []) two_packets) ≡ some (5 ∷ []))
    × (length (store 9 (5 ∷ []) two_packets).order ≤ two_packets.capacity)
get-store_example =
    get-store 9 (5 ∷ []) two_packets (omega arith)
      ((λ e. absurd (omega arith)), ((λ e. absurd (omega arith)), tt))
