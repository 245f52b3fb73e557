-- ===== src/Media/SendQueue/Window.antt =====
-- How long the retransmit cache keeps a packet.
use cascade.Base.{
  ℕ, ◌+◌, ◌<◌, ◌≡◌, refl, ap, ◌∙◌, ◌≢◌, false, List, [], ◌∷◌, ◌++◌, some, arith, length,
  length-append, append_assoc, ltb, Bool-cases, inl, inr, ==_refl, ==_ne,
}
use cascade.Base.Dict.{find, insert, erase, find-insert, find-erase}
use cascade.Media.SendQueue.{RetransmitCache, evict, store, get}
use cascade.Media.SendQueue.Cache.{IsNew}

-- The packet is there, and is listed once before the `m` that were stored after it.
pub record KeepsPacket (q : ℕ) (packet : List ℕ) (m : ℕ) (c : RetransmitCache) : Type 0 where
  pub older : List ℕ
  pub newer : List ℕ
  pub listed : c.order ≡ older ++ q ∷ newer
  pub apart : IsNew q older
  pub count : length newer ≡ m
  pub there : get q c ≡ some packet

evict_older :
    (capacity q : ℕ) (older newer : List ℕ) (cache : List (ℕ × List ℕ))
    → length newer < capacity
    → IsNew q older
    → (left : List ℕ) × (IsNew q left)
      × ((evict capacity (older ++ q ∷ newer) cache).0 ≡ left ++ q ∷ newer)
      × (find q (evict capacity (older ++ q ∷ newer) cache).1 ≡ find q cache)
unfolding evict
evict_older capacity q [] newer cache room apart =
    let stays : ltb capacity (length (q ∷ newer)) ≡ false = ground arith in
    ([], tt, rw (stays) refl, rw (stays) refl)
evict_older capacity q (x ∷ older) newer cache room apart =
    elim (Bool-cases (ltb capacity (length (x ∷ older ++ q ∷ newer)))) [
      | inl full ↦
          let (left, fresh, e, kept) =
            evict_older capacity q older newer (erase x cache) room apart.1 in
          (
            left,
            fresh,
            rw (full) e,
            rw (full) (kept ∙ find-erase x q cache ∙ rw (==_ne x q apart.0) refl),
          )
      | inr short ↦ (x ∷ older, apart, rw (short) refl, rw (short) refl)
    ]

pub store-KeepsPacket_new :
    (q : ℕ) (packet : List ℕ) (c : RetransmitCache)
    → 0 < c.capacity
    → IsNew q c.order
    → KeepsPacket q packet 0 (store q packet c)
unfolding get store
store-KeepsPacket_new q packet c positive fresh =
    let (left, apart, e, kept) =
      evict_older c.capacity q c.order [] (insert q packet c.cache) positive fresh in
    record {
      older = left;
      newer = [];
      listed = e;
      apart = apart;
      count = refl;
      there = kept ∙ find-insert q q packet c.cache ∙ rw (==_refl q) refl;
    }

pub store-KeepsPacket :
    (q x m : ℕ) (packet more : List ℕ) (c : RetransmitCache)
    → m + 1 < c.capacity
    → x ≢ q
    → KeepsPacket q packet m c
    → KeepsPacket q packet (m + 1) (store x more c)
unfolding get store
store-KeepsPacket q x m packet more c room other h =
    let newer = h.newer ++ x ∷ [] in
    let size = length-append {0} h.newer (x ∷ []) in
    let order : c.order ++ x ∷ [] ≡ h.older ++ q ∷ newer =
      ap (λ o. o ++ x ∷ []) h.listed ∙ append_assoc h.older (q ∷ h.newer) (x ∷ []) in
    let (left, apart, e, kept) =
      evict_older c.capacity q h.older newer (insert x more c.cache) (omega (arith, h.count))
        h.apart in
    record {
      older = left;
      newer = newer;
      listed = rw (order) e;
      apart = apart;
      count = omega (arith, h.count);
      there = rw (order) (kept ∙ find-insert x q more c.cache ∙ rw (==_ne x q other) h.there);
    }

pub store-capacity :
    (q : ℕ) (packet : List ℕ) (c : RetransmitCache) → (store q packet c).capacity ≡ c.capacity
unfolding store
store-capacity q packet c = refl
