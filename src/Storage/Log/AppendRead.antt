-- ===== src/Storage/Log/AppendRead.antt =====
-- `append` and `append_batch` on a log that holds a list of payloads.
use cascade.Base.{
  ℕ, ◌+◌, ◌^◌, ◌≤◌, ◌<◌, ◌≡◌, refl, ap, sym, ◌∙◌, false, List, [], ◌∷◌, ◌++◌, append_assoc,
  append-nil, arith, length, length-append, none, some, inr,
}
use native.Mathlib.Decide.{dec_le}
use cascade.Storage.Segment
use cascade.Storage.Segment.{Segment, seal, open_segment}
use cascade.Storage.Segment.Layout.{Holds, IsPayload, encode}
use cascade.Storage.Segment.Append.{
  append-Holds, append-none, HasRoom, append_keeps, append_unchanged,
}
use cascade.Storage.Segment.Fresh.{seal-Holds, seal_keeps, open_segment-Holds}
use cascade.Storage.Log.{Log, roll_new_segment, append_retry, append_rolling, append}
use cascade.Storage.Log.Chain.{Chain, IsChained, HoldsLog}

-- A write to a segment that holds `back` behind `front`.
module _ (base : ℕ) (l : Log) (ps front back : List (List ℕ)) (p : List ℕ) (ok : IsPayload p)
    (split : ps ≡ front ++ back) (rest : Chain base l.older front) (held : Holds l.active back)
    (starts : l.active.base_offset ≡ base + length front) (active : l.active.sealed ≡ false)
    (size : l.active.mapped_len ≡ l.max_segment_bytes) (positive : 0 < l.max_segment_bytes)
    (small : l.max_segment_bytes < 2 ^ 63) (offsets : base + length ps + 1 < 2 ^ 64) where
  total : length ps ≡ length front + length back
  total = ap length split ∙ length-append front back

  retry_there :
      HasRoom l.active p
      → ((append_retry p l).0 ≡ some (base + length ps))
        × IsChained base (append_retry p l).1 (ps ++ p ∷ [])
  unfolding append_retry
  retry_there room =
      let (o, h) = append-Holds l.active back p held ok active room (omega (arith, total)) in
      let (k1, k2, k3) = append_keeps l.active p in
      let offset : l.active.base_offset + length back ≡ base + length ps = omega (arith, total) in
      (
        o ∙ ap some offset,
        record {
          chain = (
            front,
            back ++ p ∷ [],
            ap (λ xs. xs ++ p ∷ []) split ∙ append_assoc front back (p ∷ []),
            rest,
            h,
            k1 ∙ starts,
          );
          active = k2 ∙ active;
          size = k3 ∙ size;
          positive = positive;
          small = small;
        },
      )

empty_end : (s : Segment) → Holds s [] → s.write_pos ≡ 0
unfolding encode
empty_end s h = h.ended

-- The active segment has room.
rolling_direct :
    (l : Log) (p : List ℕ) (o : ℕ)
    → (Segment.append p l.active).0 ≡ some o
    → append_rolling p l ≡ append_retry p l
unfolding append_rolling append_retry
rolling_direct l p o e = ground arith

-- It has none: a new segment takes its place.
abbrev rolled : Log → Segment → Log
rolled l s = record l { older = seal l.active ∷ l.older; active = s }

rolling_roll :
    (l : Log) (p : List ℕ) (s : Segment)
    → (Segment.append p l.active).0 ≡ none
    → open_segment none (seal l.active).next_offset l.max_segment_bytes ≡ some s
    → append_rolling p l ≡ append_retry p (rolled l s)
unfolding append_rolling roll_new_segment
rolling_roll l p s e new =
    let same = append_unchanged l.active p e in let new' = rw (← same) at new in ground arith

-- What fits in an empty segment is written, at the next offset, rolling if need be.
pub append_rolling_lem :
    (base : ℕ) (l : Log) (ps : List (List ℕ)) (p : List ℕ)
    → IsChained base l ps
    → IsPayload p
    → 16 + length p ≤ l.max_segment_bytes
    → base + length ps + 1 < 2 ^ 64
    → ((append_rolling p l).0 ≡ some (base + length ps))
      × IsChained base (append_rolling p l).1 (ps ++ p ∷ [])
append_rolling_lem base l ps p c ok fits offsets =
    let (front, back, split, rest, held, starts) = c.chain in
    elim (dec_le (l.active.write_pos + (16 + length p)) l.active.mapped_len) [
      | yes room ↦
          let direct =
            rolling_direct l p _
              (append-Holds l.active back p held ok c.active room
                (omega (arith, ap length split, length-append front back))).0 in
          rw direct (
            retry_there base l ps front back p ok split rest held starts c.active c.size c.positive
              c.small offsets room)
      | no full ↦
          let refused = (append-none l.active back p held ok).1 (inr (omega arith)) in
          let (shut, sealed) = seal-Holds l.active back held in
          let total = ap length split ∙ length-append front back in
          let same : (seal l.active).base_offset ≡ l.active.base_offset = seal_keeps l.active in
          let (s, opened, fresh, unsealed, wide, begins) =
            open_segment-Holds (seal l.active).next_offset l.max_segment_bytes c.positive c.small
              (omega (arith, shut.next)) in
          rw (rolling_roll l p s refused opened) (
            retry_there base (rolled l s) ps ps [] p ok (sym (append-nil ps))
              (front, back, split, rest, shut, same ∙ starts) fresh (omega (arith, shut.next))
              unsealed wide c.positive c.small offsets (omega (arith, empty_end s fresh)))
    ]

-- As long as the offsets stay below 2 ^ 64, a payload that fits in a segment is appended at the next offset, whether or not the log rolls,
-- and the log then holds it behind the others.
pub append_lem :
    (base : ℕ) (l : Log) (ps : List (List ℕ)) (p : List ℕ)
    → HoldsLog base l ps
    → IsPayload p
    → 16 + length p ≤ l.max_segment_bytes
    → base + length ps + 1 < 2 ^ 64
    → ((append p l).0 ≡ some (base + length ps)) × HoldsLog base (append p l).1 (ps ++ p ∷ [])
unfolding append
append_lem base l ps p h ok fits offsets =
    let (e, c) = append_rolling_lem base l ps p h.chained ok fits offsets in
    let more = length-append {0} ps (p ∷ []) in
    rw (e, append)
      (
        refl,
        record {
          chained = record {
            chain = c.chain;
            active = c.active;
            size = c.size;
            positive = c.positive;
            small = c.small;
          };
          next = omega arith;
        },
      )
