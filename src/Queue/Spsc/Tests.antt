-- ===== src/Queue/Spsc/Tests.antt =====
-- The theorems on the ring buffer at concrete inputs.
use cascade.Base.{
  ℕ, ◌+◌, ◌<◌, ◌≡◌, refl, ◌⊎◌, true, false, List, [], ◌∷◌, none, some, arith, length, get_or,
  get_elem?, ◌%◌,
}
use cascade.Queue.Spsc.{SpscQueue, try_push, try_pop}
use cascade.Queue.Spsc.Fifo.{HoldsFifo, try_push_lem, try_pop_lem}

-- Two slots, after three pushes and two pops; the indices have wrapped.
abbrev wrapped : SpscQueue ℕ
wrapped = record {
  capacity = 2;
  mask = 1;
  buffer = some 30 ∷ none ∷ [];
  head = 2;
  tail_cached = 2;
  tail = 3;
  head_cached = 0;
}

abbrev one : List ℕ
one = 30 ∷ []

wrapped-HoldsFifo : HoldsFifo wrapped (30 ∷ [])
wrapped-HoldsFifo = record {
  bits = 1;
  power = refl;
  masked = refl;
  sized = refl;
  fits = omega arith;
  ends = refl;
  small = omega arith;
  seen_head = omega arith;
  seen_tail = omega arith;
  stored = λ i within. first i within;
}
  where
    first : (i : ℕ) → i < 1 → get_or wrapped.buffer ((2 + i) % 2) none ≡ get_elem? (30 ∷ []) i
    first i within = let e : i ≡ 0 = omega (arith, within) in rw (e) refl

try_push_lem_example :
    (((try_push 40 wrapped).0 ≡ true)
      × (length one < wrapped.capacity)
      × HoldsFifo (try_push 40 wrapped).1 (30 ∷ 40 ∷ []))
    ⊎ (((try_push 40 wrapped).0 ≡ false)
        × (length one ≡ wrapped.capacity)
        × HoldsFifo (try_push 40 wrapped).1 (30 ∷ []))
try_push_lem_example = try_push_lem 40 wrapped (30 ∷ []) wrapped-HoldsFifo (omega arith)

try_pop_lem_example :
    ((one ≡ []) × ((try_pop wrapped).0 ≡ none) × HoldsFifo (try_pop wrapped).1 [])
    ⊎ ((x : ℕ) × (rest : List ℕ) × (one ≡ x ∷ rest)
        × ((try_pop wrapped).0 ≡ some x)
        × HoldsFifo (try_pop wrapped).1 rest)
try_pop_lem_example = try_pop_lem wrapped (30 ∷ []) wrapped-HoldsFifo
