-- ===== src/Storage/Log/Chain.antt =====
-- What it means for a log to hold a list of payloads.
use cascade.Base.{
  ℕ, ◌+◌, ◌-◌, ◌^◌, ◌<◌, ◌≡◌, refl, ap, sym, ◌∙◌, false, List, [], ◌∷◌, ◌++◌, arith, length, Option,
  none, some, ltb, Bool-cases, inl, inr, get_elem?-append_left, get_elem?-append_right,
}
use cascade.Storage.Segment.{Segment, ReadResult, read_from, position_hint_for}
use cascade.Storage.Segment.Layout.{Holds}
use cascade.Storage.Segment.Read.{lookup_record, read_from_lem}
use cascade.Storage.Log.{Log, read, segment_for}

-- Segments, from the back on, that hold `ps` between them: each goes on where the one before it
-- stops, the first starts at offset `base`.
abbrev pub Chain : ℕ → List Segment → List (List ℕ) → Type 0
Chain base [] ps = ps ≡ []
Chain base (s ∷ ss) ps =
    (front : List (List ℕ)) × (back : List (List ℕ)) × (ps ≡ front ++ back)
    × Chain base ss front
    × Holds s back
    × (s.base_offset ≡ base + length front)

-- The last segment is open and of full size.
pub record IsChained (base : ℕ) (l : Log) (ps : List (List ℕ)) : Type 0 where
  pub chain : Chain base (l.active ∷ l.older) ps
  pub active : l.active.sealed ≡ false
  pub size : l.active.mapped_len ≡ l.max_segment_bytes
  pub positive : 0 < l.max_segment_bytes
  pub small : l.max_segment_bytes < 2 ^ 63

-- A log holds `ps` from offset `base` on: its segments do, and the cached high-water mark is the
-- offset after them.
pub record HoldsLog (base : ℕ) (l : Log) (ps : List (List ℕ)) : Type 0 where
  pub chained : IsChained base l ps
  pub next : l.next_offset ≡ base + length ps

lookup_front :
    (base k : ℕ) (front back : List (List ℕ))
    → k < length front
    → lookup_record base k (front ++ back) ≡ lookup_record base k front
unfolding lookup_record
lookup_front base k front back h = rw (get_elem?-append_left k front back h)

lookup_back :
    (base k : ℕ) (front back : List (List ℕ))
    → lookup_record base (length front + k) (front ++ back)
      ≡ lookup_record (base + length front) k back
unfolding lookup_record
lookup_back base k front back =
    let e : base + (length front + k) ≡ base + length front + k = omega arith in
    rw (get_elem?-append_right k front back, e)

abbrev read_at : ℕ → Option Segment → Option ReadResult
read_at offset none = none
read_at offset (some s) = read_from offset (position_hint_for offset s) s

read-Chain :
    (base k : ℕ) (ss : List Segment) (ps : List (List ℕ))
    → Chain base ss ps
    → read_at (base + k) (segment_for (base + k) ss) ≡ lookup_record base k ps
unfolding segment_for
read-Chain base k [] ps e = rw e (unfold lookup_record in refl)
read-Chain base k (s ∷ ss) ps (front, back, e, rest, h, at) =
    elim (Bool-cases (ltb (base + k) s.base_offset)) [
      | inl before ↦
          rw (before, e)
            (read-Chain base k ss front rest ∙ sym (lookup_front base k front back (ground arith)))
      | inr there ↦
          let j = k - length front in
          let split : k ≡ length front + j = ground arith in
          let offset : base + k ≡ s.base_offset + j = omega arith in
          let found = read_from_lem s back j h in
          rw (there, e)
            (ap (λ o. read_from o (position_hint_for o s) s) offset
              ∙ found
              ∙ ap (λ b. lookup_record b j back) at
              ∙ sym (lookup_back base j front back)
              ∙ ap (λ i. lookup_record base i (front ++ back)) (sym split))
    ]

-- The log refines the list of its payloads: a read at any offset from the base on returns the
-- payload appended under it, from whichever segment, and nothing for an offset not reached yet.
pub read_lem :
    (base k : ℕ) (l : Log) (ps : List (List ℕ))
    → HoldsLog base l ps
    → read (base + k) l ≡ lookup_record base k ps
unfolding read
read_lem base k l ps h = read-Chain base k (l.active ∷ l.older) ps h.chained.chain
