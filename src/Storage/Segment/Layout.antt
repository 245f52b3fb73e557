-- ===== src/Storage/Segment/Layout.antt =====
-- The record layout of segment.hpp, and what it means for a segment to hold a list of payloads.
use cascade.Base.{
  ℕ, suc, ◌+◌, ◌^◌, ◌≤◌, ◌<◌, ◌≡◌, refl, sym, ◌∙◌, false, List, [], ◌∷◌, ◌++◌, append_assoc,
  append-nil, arith, length, take, drop, length-append, take-append, drop-append, drop-append_add,
  take-append_le, if_either,
}
use cascade.Storage.Bytes.{AreBytes, le_bytes, load, length-le_bytes, load-append, load-le_bytes}
use cascade.Storage.Crc32.{crc32}
use cascade.Storage.Crc32.Bitwise.{crc32-lt}
use cascade.Storage.Segment.{Segment, IndexEntry, maybe_index}

-- [8 bytes: offset][4 bytes: payload_len][4 bytes: crc32][payload...]
unfoldable pub record_bytes : ℕ → List ℕ → List ℕ
record_bytes offset payload =
    le_bytes 8 offset ++ (le_bytes 4 (length payload) ++ (le_bytes 4 (crc32 payload) ++ payload))

-- The records of consecutive offsets.
unfoldable pub encode : ℕ → List (List ℕ) → List ℕ
encode offset [] = []
encode offset (p ∷ ps) = record_bytes offset p ++ encode (offset + 1) ps

-- A payload as the source's `uint8_t` pointer and `uint32_t` length give it.
pub record IsPayload (p : List ℕ) : Type 0 where
  pub bytes : AreBytes p
  pub short : length p < 2 ^ 32

abbrev pub ArePayloads : List (List ℕ) → Type 0
ArePayloads [] = Unit {0}
ArePayloads (p ∷ ps) = IsPayload p × ArePayloads ps

pub length-record_bytes : (o : ℕ) (p : List ℕ) → length (record_bytes o p) ≡ 16 + length p
unfolding record_bytes
length-record_bytes o p = omega (
  arith,
  length-append (le_bytes 8 o) (le_bytes 4 (length p) ++ (le_bytes 4 (crc32 p) ++ p)),
  length-append (le_bytes 4 (length p)) (le_bytes 4 (crc32 p) ++ p),
  length-append (le_bytes 4 (crc32 p)) p,
  length-le_bytes 8 o,
  length-le_bytes 4 (length p),
  length-le_bytes 4 (crc32 p),
)

pub encode-snoc :
    (o : ℕ) (ps : List (List ℕ)) (p : List ℕ)
    → encode o (ps ++ p ∷ []) ≡ encode o ps ++ record_bytes (o + length ps) p
unfolding encode
encode-snoc o [] p = let e : o + 0 ≡ o = omega arith in rw (e, append-nil)
encode-snoc o (q ∷ ps) p =
    let e : o + 1 + length ps ≡ o + suc (length ps) = omega arith in
    rw (encode-snoc (o + 1) ps p, e) (sym (append_assoc (record_bytes o q) (encode (o + 1) ps) _))

fields :
    (o : ℕ) (p rest : List ℕ)
    → record_bytes o p ++ rest
      ≡ le_bytes 8 o ++ (le_bytes 4 (length p) ++ (le_bytes 4 (crc32 p) ++ (p ++ rest)))
unfolding record_bytes
fields o p rest = simp append_assoc

-- The fields of a record, read where it starts.
module _ (o : ℕ) (p rest : List ℕ) (small : o < 2 ^ 64) (ok : IsPayload p) where
  head_offset : load 0 8 (record_bytes o p ++ rest) ≡ o
  head_offset = rw (fields o p rest) (load-le_bytes 8 o _ small)

  head_len : load 8 4 (record_bytes o p ++ rest) ≡ length p
  head_len = rw (fields o p rest) (
      load-append 8 0 4 (le_bytes 8 o) _ (omega (arith, length-le_bytes 8 o))
      ∙ load-le_bytes 4 (length p) _ ok.short)

  head_crc : load 12 4 (record_bytes o p ++ rest) ≡ crc32 p
  head_crc = rw (fields o p rest) (
      load-append 12 4 4 (le_bytes 8 o) _ (omega (arith, length-le_bytes 8 o))
      ∙ load-append 4 0 4 (le_bytes 4 (length p)) _ (omega (arith, length-le_bytes 4 (length p)))
      ∙ load-le_bytes 4 (crc32 p) _ (crc32-lt p ok.bytes))

-- The payload behind its header.
pub drop-record_bytes : (o : ℕ) (p rest : List ℕ) → drop 16 (record_bytes o p ++ rest) ≡ p ++ rest
drop-record_bytes o p rest = rw (fields o p rest) (
    drop-append_add 8 16 8 (le_bytes 8 o) _ (sym (length-le_bytes 8 o)) refl
    ∙ drop-append_add 4 8 4 (le_bytes 4 (length p)) _ (sym (length-le_bytes 4 (length p))) refl
    ∙ drop-append 4 (le_bytes 4 (crc32 p)) (p ++ rest) (sym (length-le_bytes 4 (crc32 p))))

module _ (pos o : ℕ) (pre p rest : List ℕ) (there : pos ≡ length pre) (small : o < 2 ^ 64)
    (ok : IsPayload p) where
  pub load_offset : load pos 8 (pre ++ (record_bytes o p ++ rest)) ≡ o
  load_offset =
      load-append pos 0 8 pre (record_bytes o p ++ rest) (omega arith)
      ∙ head_offset o p rest small ok

  pub load_len : load (pos + 8) 4 (pre ++ (record_bytes o p ++ rest)) ≡ length p
  load_len =
      load-append (pos + 8) 8 4 pre (record_bytes o p ++ rest) (omega arith)
      ∙ head_len o p rest small ok

  pub load_crc : load (pos + 12) 4 (pre ++ (record_bytes o p ++ rest)) ≡ crc32 p
  load_crc =
      load-append (pos + 12) 12 4 pre (record_bytes o p ++ rest) (omega arith)
      ∙ head_crc o p rest small ok

  pub load_payload : take (length p) (drop (pos + 16) (pre ++ (record_bytes o p ++ rest))) ≡ p
  load_payload =
      rw
        (
          drop-append_add pos (pos + 16) 16 pre (record_bytes o p ++ rest) there refl,
          drop-record_bytes o p rest,
        )
        (take-append (length p) p rest refl)

-- An index entry points at the start of a record and names its offset.
abbrev pub IsEntry : ℕ → List (List ℕ) → IndexEntry → Type 0
IsEntry base ps e =
    (i : ℕ) × (i < length ps) × (e.offset ≡ base + i) × (e.pos ≡ length (encode base (take i ps)))

abbrev pub IsIndex : ℕ → List (List ℕ) → List IndexEntry → Type 0
IsIndex base ps [] = Unit {0}
IsIndex base ps (e ∷ es) = IsEntry base ps e × IsIndex base ps es

-- A segment holds the payloads `ps`: their records fill its memory up to `write_pos`, the counters
-- and the index speak of them, and no position or offset wraps.
pub record Holds (s : Segment) (ps : List (List ℕ)) : Type 0 where
  pub stored : take s.write_pos s.bytes ≡ encode s.base_offset ps
  pub ended : s.write_pos ≡ length (encode s.base_offset ps)
  pub room : s.write_pos ≤ length s.bytes
  pub fits : s.write_pos ≤ s.mapped_len
  pub backed : s.sealed ≡ false → s.mapped_len ≤ length s.bytes
  pub next : s.next_offset ≡ s.base_offset + length ps
  pub counted : s.record_count ≡ length ps
  pub payloads : ArePayloads ps
  pub indexed : IsIndex s.base_offset ps s.index
  pub small_offsets : s.base_offset + length ps < 2 ^ 64
  pub small_memory : s.mapped_len < 2 ^ 63

pub ArePayloads-snoc :
    (ps : List (List ℕ)) (p : List ℕ) → ArePayloads ps → IsPayload p → ArePayloads (ps ++ p ∷ [])
ArePayloads-snoc [] p h ok = (ok, tt)
ArePayloads-snoc (q ∷ ps) p h ok = (h.0, ArePayloads-snoc ps p h.1 ok)

-- More records leave the entries right.
IsIndex-snoc :
    (base : ℕ) (ps : List (List ℕ)) (p : List ℕ) (es : List IndexEntry)
    → IsIndex base ps es
    → IsIndex base (ps ++ p ∷ []) es
IsIndex-snoc base ps p [] h = tt
IsIndex-snoc base ps p (e ∷ es) ((i, below, offset, pos), h) = (
  (
    i,
    omega (arith, length-append {0} ps (p ∷ [])),
    offset,
    rw (take-append_le i ps (p ∷ []) (omega arith)) pos,
  ),
  IsIndex-snoc base ps p es h,
)

IsIndex-append :
    (base : ℕ) (ps : List (List ℕ)) (es : List IndexEntry) (e : IndexEntry)
    → IsIndex base ps es
    → IsEntry base ps e
    → IsIndex base ps (es ++ e ∷ [])
IsIndex-append base ps [] e h k = (k, tt)
IsIndex-append base ps (f ∷ es) e h k = (h.0, IsIndex-append base ps es e h.1 k)

-- The index after a record, whether or not `maybe_index` enters it.
pub maybe_index-IsIndex :
    (s : Segment) (base : ℕ) (ps : List (List ℕ)) (p : List ℕ) (o pos size : ℕ)
    → IsIndex base ps s.index
    → o ≡ base + length ps
    → pos ≡ length (encode base ps)
    → IsIndex base (ps ++ p ∷ []) (maybe_index o pos size s).index
unfolding maybe_index
maybe_index-IsIndex s base ps p o pos size h eo ep =
    let old = IsIndex-snoc base ps p s.index h in
    if_either (IsIndex base (ps ++ p ∷ [])) _
      (IsIndex-append base (ps ++ p ∷ []) s.index (record { offset = o; pos = pos }) old
        (
          length ps,
          omega (arith, length-append {0} ps (p ∷ [])),
          eo,
          rw (take-append (length ps) ps (p ∷ []) refl) ep,
        ))
      old
