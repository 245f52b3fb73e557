-- ===== src/Storage/Segment/Read.antt =====
-- `read_from`, started where the sparse index says.
use mathlib.Core.Option
use cascade.Base.{
  ℕ, zero, suc, ◌+◌, ◌-◌, ◌^◌, ◌≤◌, ◌<◌, ◌≡◌, refl, ap, sym, ◌∙◌, List, [], ◌∷◌, ◌++◌, append_assoc,
  arith, length, take, drop, length-append, length-drop, take-append-drop, Option, none, some, ltb,
  if◌then◌else◌, get_elem?, get_elem?-drop, ◌==◌, Bool-cases, inl, inr, le→ltb, ==_refl, ==_ne,
  lt→ltb,
}
use cascade.Base.Word.{add64}
use cascade.Storage.Bytes.{load}
use cascade.Storage.Segment.{
  Segment, IndexEntry, ReadResult, read_loop, read_from, hint_from, position_hint_for,
}
use cascade.Storage.Segment.Layout.{
  record_bytes, length-record_bytes, encode, IsPayload, ArePayloads, Holds, IsIndex, load_offset,
  load_len, load_payload,
}

-- What a read at offset `o + k` has to return, where the records from offset `o` on are `qs`.
unfoldable pub lookup_record : ℕ → ℕ → List (List ℕ) → Option ReadResult
lookup_record o k qs = Option.map (λ p. record { offset = o + k; payload = p }) (get_elem? qs k)

-- One turn of the loop at a record that lies inside the written part.
read_step :
    (fuel : ℕ) (s : Segment) (target pos o l : ℕ) (p : List ℕ)
    → load pos 8 s.bytes ≡ o
    → load (pos + 8) 4 s.bytes ≡ l
    → take l (drop (pos + 16) s.bytes) ≡ p
    → pos + (16 + l) ≤ s.write_pos
    → s.write_pos < 2 ^ 63
    → read_loop (suc fuel) s target pos ≡ (
        if o == target
        then some (record { offset = o; payload = p })
        else if ltb target o
        then none
        else read_loop fuel s target (pos + (16 + l)))
unfolding read_loop
read_step fuel s target pos o l p eo el ep h small =
    let a : add64 pos 16 ≡ pos + 16 = omega arith in
    let b : add64 (pos + 16) l ≡ pos + (16 + l) = omega arith in
    let c : add64 pos (16 + l) ≡ pos + (16 + l) = omega arith in
    rw (
      eo,
      el,
      ep,
      a,
      b,
      c,
      le→ltb s.write_pos (pos + 16) (omega arith),
      le→ltb s.write_pos (pos + (16 + l)) h,
    )

read_end :
    (fuel : ℕ) (s : Segment) (target pos : ℕ)
    → s.write_pos ≡ pos
    → s.write_pos < 2 ^ 63
    → read_loop (suc fuel) s target pos ≡ none
unfolding read_loop
read_end fuel s target pos e small =
    let a : add64 pos 16 ≡ pos + 16 = omega arith in
    rw (a, lt→ltb s.write_pos (pos + 16) (omega arith))

-- Behind the first record stand the rest.
encode_split :
    (pre free q : List ℕ) (qs : List (List ℕ)) (o : ℕ)
    → pre ++ (encode o (q ∷ qs) ++ free) ≡ pre ++ (record_bytes o q ++ (encode (o + 1) qs ++ free))
unfolding encode
encode_split pre free q qs o = simp append_assoc

length-encode_cons :
    (o : ℕ) (q : List ℕ) (qs : List (List ℕ))
    → length (encode o (q ∷ qs)) ≡ 16 + length q + length (encode (o + 1) qs)
unfolding encode
length-encode_cons o q qs =
    omega (arith, length-append (record_bytes o q) (encode (o + 1) qs), length-record_bytes o q)

-- The turn at the first of the records.
read_cons :
    (fuel : ℕ) (s : Segment) (target pos o : ℕ) (pre free q : List ℕ) (qs : List (List ℕ))
    → s.bytes ≡ pre ++ (encode o (q ∷ qs) ++ free)
    → pos ≡ length pre
    → s.write_pos ≡ pos + length (encode o (q ∷ qs))
    → IsPayload q
    → o < 2 ^ 64
    → s.write_pos < 2 ^ 63
    → read_loop (suc fuel) s target pos ≡ (
        if o == target
        then some (record { offset = o; payload = q })
        else if ltb target o
        then none
        else read_loop fuel s target (pos + (16 + length q)))
read_cons fuel s target pos o pre free q qs eb ep ew ok small memory =
    let e : s.bytes ≡ pre ++ (record_bytes o q ++ (encode (o + 1) qs ++ free)) =
      eb ∙ encode_split pre free q qs o in
    let rest = encode (o + 1) qs ++ free in
    read_step fuel s target pos o (length q) q (rw e (load_offset pos o pre q rest ep small ok))
      (rw e (load_len pos o pre q rest ep small ok))
      (rw e (load_payload pos o pre q rest ep small ok)) (omega (arith, length-encode_cons o q qs))
      memory

-- From the start of a record on, the loop finds the record that is asked for or its absence.
read_loop_lem :
    (fuel : ℕ) (s : Segment) (pos o k : ℕ) (pre free : List ℕ) (qs : List (List ℕ))
    → s.bytes ≡ pre ++ (encode o qs ++ free)
    → pos ≡ length pre
    → s.write_pos ≡ pos + length (encode o qs)
    → ArePayloads qs
    → o + length qs < 2 ^ 64
    → s.write_pos < 2 ^ 63
    → length (encode o qs) < fuel
    → read_loop fuel s (o + k) pos ≡ lookup_record o k qs
unfolding lookup_record
read_loop_lem zero s pos o k pre free qs eb ep ew ok small memory f = absurd (omega arith)
read_loop_lem (suc fuel) s pos o k pre free [] eb ep ew ok small memory f =
    read_end fuel s (o + k) pos (omega (arith, nothing)) memory
  where
    nothing : length (encode o []) ≡ 0
    nothing = unfold encode in refl
read_loop_lem (suc fuel) s pos o zero pre free (q ∷ qs) eb ep ew ok small memory f =
    let e : o ≡ o + 0 = omega arith in
    read_cons fuel s (o + 0) pos o pre free q qs eb ep ew ok.0 (omega arith) memory
    ∙ rw (← e, ==_refl o)
read_loop_lem (suc fuel) s pos o (suc k) pre free (q ∷ qs) eb ep ew ok small memory f =
    let e : o + suc k ≡ o + 1 + k = omega arith in
    let l = length-encode_cons o q qs in
    read_cons fuel s (o + suc k) pos o pre free q qs eb ep ew ok.0 (omega arith) memory
    ∙ rw (==_ne o (o + suc k) (omega arith), le→ltb (o + suc k) o (omega arith), e)
        (read_loop_lem fuel s (pos + (16 + length q)) (o + 1) k (pre ++ record_bytes o q) free qs
          (eb ∙ encode_split pre free q qs o ∙ sym (append_assoc pre (record_bytes o q) _))
          (omega (arith, length-append pre (record_bytes o q), length-record_bytes o q))
          (omega arith) ok.1 (omega arith) memory (omega arith))

-- The hint is the start of some record whose offset does not exceed the target.
abbrev IsHint : ℕ → List (List ℕ) → ℕ → ℕ → Type 0
IsHint base ps k pos =
    (i : ℕ) × (i ≤ length ps) × (i ≤ k) × (pos ≡ length (encode base (take i ps)))

hint_from-IsHint :
    (base k best : ℕ) (ps : List (List ℕ)) (es : List IndexEntry)
    → IsIndex base ps es
    → IsHint base ps k best
    → IsHint base ps k (hint_from (base + k) best es)
unfolding hint_from
hint_from-IsHint base k best ps [] h b = b
hint_from-IsHint base k best ps (e ∷ es) ((i, below, offset, pos), h) b =
    elim (Bool-cases (ltb (base + k) e.offset)) [
      | inl past ↦ rw past b
      | inr not_past ↦
          rw not_past (hint_from-IsHint base k e.pos ps es h (i, omega arith, ground arith, pos))
    ]

encode-take-drop :
    (i base : ℕ) (ps : List (List ℕ))
    → i ≤ length ps
    → encode base ps ≡ encode base (take i ps) ++ encode (base + i) (drop i ps)
unfolding encode
encode-take-drop zero base ps h = let e : base + 0 ≡ base = omega arith in rw e
encode-take-drop (suc i) base [] h = absurd (omega arith)
encode-take-drop (suc i) base (p ∷ ps) h =
    let e : base + suc i ≡ base + 1 + i = omega arith in
    rw
      (
        e,
        append_assoc (record_bytes base p) (encode (base + 1) (take i ps))
            (encode (base + 1 + i) (drop i ps)),
      )
      (ap (◌++◌ (record_bytes base p)) (encode-take-drop i (base + 1) ps (omega arith)))

lookup-drop :
    (i base k : ℕ) (ps : List (List ℕ))
    → i ≤ k
    → lookup_record (base + i) (k - i) (drop i ps) ≡ lookup_record base k ps
unfolding lookup_record
lookup-drop i base k ps h =
    let a : base + i + (k - i) ≡ base + k = omega arith in
    let b : i + (k - i) ≡ k = omega arith in rw (get_elem?-drop i (k - i) ps, a, b)

ArePayloads-drop : (i : ℕ) (ps : List (List ℕ)) → ArePayloads ps → ArePayloads (drop i ps)
ArePayloads-drop zero ps h = h
ArePayloads-drop (suc i) [] h = tt
ArePayloads-drop (suc i) (p ∷ ps) h = ArePayloads-drop i ps h.1

read_hinted :
    (s : Segment) (ps : List (List ℕ)) (k pos : ℕ)
    → Holds s ps
    → IsHint s.base_offset ps k pos
    → read_loop (suc s.write_pos) s (s.base_offset + k) pos ≡ lookup_record s.base_offset k ps
read_hinted s ps k pos h (i, below, le, at_i) =
    let t : s.base_offset + k ≡ s.base_offset + i + (k - i) = omega arith in
    let before = encode s.base_offset (take i ps) in
    let after = encode (s.base_offset + i) (drop i ps) in
    let parts = encode-take-drop i s.base_offset ps below in
    let size = ap length parts ∙ length-append before after in
    let memory : s.write_pos < 2 ^ 63 = omega (arith, h.fits, h.small_memory) in
    rw t (
      read_loop_lem (suc s.write_pos) s pos (s.base_offset + i) (k - i) before
        (drop s.write_pos s.bytes) (drop i ps)
        (sym (take-append-drop s.write_pos s.bytes)
          ∙ ap (λ xs. xs ++ drop s.write_pos s.bytes) (h.stored ∙ parts)
          ∙ append_assoc before after (drop s.write_pos s.bytes))
        at_i (omega (arith, h.ended)) (ArePayloads-drop i ps h.payloads)
        (omega (arith, h.small_offsets, length-drop i ps)) memory (omega (arith, h.ended))
      ∙ lookup-drop i s.base_offset k ps le)

-- A read at any offset from the base on, started at the index's hint, returns the payload stored
-- under it, and nothing for an offset that is not there yet.
pub read_from_lem :
    (s : Segment) (ps : List (List ℕ)) (k : ℕ)
    → Holds s ps
    → read_from (s.base_offset + k) (position_hint_for (s.base_offset + k) s) s
      ≡ lookup_record s.base_offset k ps
unfolding read_from position_hint_for
read_from_lem s ps k h = read_hinted s ps k (hint_from (s.base_offset + k) 0 s.index) h (
    hint_from-IsHint s.base_offset k 0 ps s.index h.indexed
      (0, omega arith, omega arith, unfold encode in refl))
