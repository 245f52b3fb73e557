-- ===== src/Media/SendQueue/Priority.antt =====
-- The order in which packets leave the priority queue.
use cascade.Base.{
  Option, none, some, ℕ, zero, suc, ◌+◌, ◌≤◌, ◌≡◌, refl, ap, ◌∙◌, List, [], ◌∷◌, ◌++◌, none, some,
  arith, length, append_assoc, append-nil,
}
use cascade.Media.SendQueue.{
  PacketPriority, high, normal, PriorityPacketQueue, push, pop, pop_with_priority, size,
}

-- Pushes one after the other.
abbrev pub push_all : List (PacketPriority × List ℕ) → PriorityPacketQueue → PriorityPacketQueue
push_all [] q = q
push_all ((priority, packet) ∷ ps) q = push_all ps (push priority packet q)

-- At most `n` pops, until nothing is left.
abbrev pub pop_all : ℕ → PriorityPacketQueue → List (List ℕ)
pop_all zero q = []
pop_all (suc n) q =
    let (front, rest) = pop q in
    let more = pop_all n rest in elim front [ none ↦ [] | some p ↦ p ∷ more ]

abbrev pub of_high : List (PacketPriority × List ℕ) → List (List ℕ)
of_high [] = []
of_high ((high, p) ∷ ps) = p ∷ of_high ps
of_high ((normal, p) ∷ ps) = of_high ps

abbrev pub of_normal : List (PacketPriority × List ℕ) → List (List ℕ)
of_normal [] = []
of_normal ((high, p) ∷ ps) = of_normal ps
of_normal ((normal, p) ∷ ps) = p ∷ of_normal ps

pop_normals :
    (n : ℕ) (ns : List (List ℕ))
    → length ns ≤ n
    → pop_all n (record { high_queue = []; normal_queue = ns }) ≡ ns
unfolding pop
pop_normals zero [] h = refl
pop_normals zero (x ∷ ns) h = absurd (omega arith)
pop_normals (suc n) [] h = refl
pop_normals (suc n) (x ∷ ns) h = ap (◌∷◌ x) (pop_normals n ns (omega arith))

pop_both :
    (n : ℕ) (hs ns : List (List ℕ))
    → length hs + length ns ≤ n
    → pop_all n (record { high_queue = hs; normal_queue = ns }) ≡ hs ++ ns
unfolding pop
pop_both n [] ns h = pop_normals n ns (omega arith)
pop_both zero (x ∷ hs) ns h = absurd (omega arith)
pop_both (suc n) (x ∷ hs) ns h = ap (◌∷◌ x) (pop_both n hs ns (omega arith))

pushed :
    (ps : List (PacketPriority × List ℕ)) (hs ns : List (List ℕ))
    → push_all ps (record { high_queue = hs; normal_queue = ns })
      ≡ record { high_queue = hs ++ of_high ps; normal_queue = ns ++ of_normal ps }
unfolding push
pushed [] hs ns = rw (append-nil hs, append-nil ns) refl
pushed ((high, p) ∷ ps) hs ns =
    pushed ps (hs ++ p ∷ []) ns ∙ rw (append_assoc hs (p ∷ []) (of_high ps)) refl
pushed ((normal, p) ∷ ps) hs ns =
    pushed ps hs (ns ++ p ∷ []) ∙ rw (append_assoc ns (p ∷ []) (of_normal ps)) refl

-- Packets that are pushed to an empty queue come back, by as many pops as its size, the ones of
-- high priority first, and those of one priority in the order they were pushed.
pub pop_all-push_all :
    (ps : List (PacketPriority × List ℕ))
    → let q = push_all ps (record { high_queue = []; normal_queue = [] }) in
      pop_all (size q) q ≡ of_high ps ++ of_normal ps
unfolding size
pop_all-push_all ps = rw (pushed ps [] []) (
    pop_both (length (of_high ps) + length (of_normal ps)) (of_high ps) (of_normal ps)
      (omega arith))

abbrev pub packet_of : Option (PacketPriority × List ℕ) → Option (List ℕ)
packet_of none = none
packet_of (some (priority, packet)) = some packet

-- `pop_with_priority` takes the packet that `pop` takes and leaves the same queue.
pop_with_priority-pop :
    (q : PriorityPacketQueue)
    → (packet_of (pop_with_priority q).0 ≡ (pop q).0) × ((pop_with_priority q).1 ≡ (pop q).1)
unfolding pop pop_with_priority
pop_with_priority-pop q = go q.high_queue q.normal_queue
  where
    go :
        (hs ns : List (List ℕ))
        → let q : PriorityPacketQueue = record { high_queue = hs; normal_queue = ns } in
          (packet_of (pop_with_priority q).0 ≡ (pop q).0) × ((pop_with_priority q).1 ≡ (pop q).1)
    go [] [] = (refl, refl)
    go [] (n ∷ ns) = (refl, refl)
    go (h ∷ hs) ns = (refl, refl)
