-- ===== src/Media/SendQueue/Cache.antt =====
-- What the retransmit cache keeps.
use cascade.Base.{
  ℕ, suc, ◌≤◌, ◌<◌, ◌≡◌, refl, ap, ◌∙◌, ◌≢◌, List, [], ◌∷◌, ◌++◌, none, some, arith, length,
  length-append, ltb, true, ==_refl, ==_ne,
}
use cascade.Base.Dict.{find, insert, erase, find-insert, find-erase}
use cascade.Media.SendQueue.{RetransmitCache, evict, store, get}

-- After a store, at most `capacity` packets are listed.
evict-size :
    (capacity : ℕ) (order : List ℕ) (cache : List (ℕ × List ℕ))
    → length (evict capacity order cache).0 ≤ capacity
unfolding evict
evict-size capacity [] cache = omega arith
evict-size capacity (x ∷ order) cache = ground (arith, evict-size capacity order (erase x cache))

abbrev pub IsNew : ℕ → List ℕ → Type 0
IsNew q [] = Unit
IsNew q (x ∷ xs) = (x ≢ q) × IsNew q xs

evict_keeps :
    (capacity q : ℕ) (order : List ℕ) (cache : List (ℕ × List ℕ))
    → 0 < capacity
    → IsNew q order
    → find q (evict capacity (order ++ q ∷ []) cache).1 ≡ find q cache
unfolding evict
evict_keeps capacity q [] cache positive fresh = ground arith
evict_keeps capacity q (x ∷ order) cache positive fresh =
    let kept = find-erase x q cache in
    let apart = ==_ne x q fresh.0 in
    ground (arith, evict_keeps capacity q order (erase x cache) positive fresh.1)

-- A packet that is stored under a sequence number that the cache does not list is there to be sent
-- again, if the capacity is positive, and the cache lists no more packets than its capacity.
pub get-store :
    (q : ℕ) (packet : List ℕ) (c : RetransmitCache)
    → 0 < c.capacity
    → IsNew q c.order
    → (get q (store q packet c) ≡ some packet) × (length (store q packet c).order ≤ c.capacity)
unfolding get store
get-store q packet c positive fresh = (
  evict_keeps c.capacity q c.order (insert q packet c.cache) positive fresh
      ∙ find-insert q q packet c.cache
      ∙ rw (==_refl q) refl,
  evict-size c.capacity (c.order ++ q ∷ []) (insert q packet c.cache),
)

evict-none :
    (capacity q : ℕ) (order : List ℕ) (cache : List (ℕ × List ℕ))
    → find q cache ≡ none
    → find q (evict capacity order cache).1 ≡ none
unfolding evict
evict-none capacity q [] cache h = h
evict-none capacity q (x ∷ order) cache h =
    let gone = find-erase x q cache in ground (arith, evict-none capacity q order (erase x cache))

-- A second store under the oldest sequence number of a full cache loses the packet that it stores.
get-store_twice :
    (q : ℕ) (packet : List ℕ) (c : RetransmitCache) (rest : List ℕ)
    → c.order ≡ q ∷ rest
    → length c.order ≡ c.capacity
    → get q (store q packet c) ≡ none
unfolding get store evict
get-store_twice q packet c rest e full =
    let size = length-append {0} rest (q ∷ []) in
    let over : ltb c.capacity (suc (length (rest ++ q ∷ []))) ≡ true =
      ground (arith, ap length e) in
    let gone : find q (erase q (insert q packet c.cache)) ≡ none =
      find-erase q q (insert q packet c.cache) ∙ rw (==_refl q) refl in
    rw (e, evict, over)
      (evict-none c.capacity q (rest ++ q ∷ []) (erase q (insert q packet c.cache)) gone)
