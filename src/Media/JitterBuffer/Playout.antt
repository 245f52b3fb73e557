-- ===== src/Media/JitterBuffer/Playout.antt =====
-- What a run of pulls plays.
use cascade.Base.{
  ℕ, zero, suc, ◌+◌, ◌%◌, ◌^◌, ◌≤◌, ◌<◌, ◌≡◌, refl, ap, sym, ◌∙◌, ◌≢◌, Bool, true, false, List, [],
  Option, none, some, arith, leb, ==_ne, Option-cases, inl, inr, if◌then◌else◌,
}
use cascade.Base.Word.{add32}
use cascade.Base.Dict.{find, find-erase}
use cascade.Media.JitterBuffer.{JitterBuffer, PullResult, packet, concealed, pull, deadline}

-- The buffer after `k` pulls, the first at the time `now 0`.
pub pulled : (ℕ → ℕ) → ℕ → JitterBuffer → JitterBuffer
pulled now zero b = b
pulled now (suc k) b = (pull (now k) (pulled now k b)).1

-- The sequence number `k` slots on.
abbrev pub slot_at : ℕ → JitterBuffer → ℕ
slot_at k b = (b.next_sequence + k) % 2 ^ 32

-- The latest payload heard before that slot: that of the last frame there, or of what was played
-- before.
abbrev pub latest : JitterBuffer → ℕ → Option (List ℕ)
latest b zero = if b.has_last_good then some b.last_good_payload else none
latest b (suc k) = elim (find (slot_at k b) b.buffer) [ some p ↦ some p | none ↦ latest b k ]

abbrev pub or_empty : Option (List ℕ) → List ℕ
or_empty none = []
or_empty (some p) = p

or_empty_if :
    (b : Bool) (p : List ℕ) → (if b then p else []) ≡ or_empty (if b then some p else none)
or_empty_if true p = refl
or_empty_if false p = refl

-- What the slot should give: its frame, or the latest payload before it.
abbrev pub expected : JitterBuffer → ℕ → PullResult
expected b k = elim (find (slot_at k b) b.buffer) [
  | some p ↦ record { kind = packet; sequence = slot_at k b; payload = p }
  | none ↦ record { kind = concealed; sequence = slot_at k b; payload = or_empty (latest b k) }
]

-- `c` has played the first `k` of `n` slots of `b`.
record Played (n k : ℕ) (b c : JitterBuffer) : Type 0 where
  running : c.started ≡ true
  next : c.next_sequence ≡ slot_at k b
  base :
      (c.base_sequence ≡ b.base_sequence)
      × (c.base_arrival_ms ≡ b.base_arrival_ms)
      × (c.target_delay_ms ≡ b.target_delay_ms)
      × (c.frame_interval_ms ≡ b.frame_interval_ms)
  ahead : (i : ℕ) → k ≤ i → i < n → find (slot_at i b) c.buffer ≡ find (slot_at i b) b.buffer
  heard : (if c.has_last_good then some c.last_good_payload else none) ≡ latest b k

slots_apart :
    (b : JitterBuffer) (n k i : ℕ) → n ≤ 2 ^ 32 → k < i → i < n → slot_at k b ≢ slot_at i b
slots_apart b n k i small less inside e = absurd (omega arith)

next_slot : (b : JitterBuffer) (k : ℕ) → add32 (slot_at k b) 1 ≡ slot_at (suc k) b
next_slot b k = omega arith

slot_deadline :
    (n k : ℕ) (b c : JitterBuffer)
    → Played n k b c
    → deadline c ≡ deadline (record b { next_sequence = slot_at k b })
unfolding deadline
slot_deadline n k b c h = let (a, d, e, f) = h.base in rw (h.next, a, d, e, f) refl

-- A frame that is there.
play_found :
    (n k now : ℕ) (b c : JitterBuffer) (p : List ℕ)
    → n ≤ 2 ^ 32
    → k < n
    → Played n k b c
    → find (slot_at k b) b.buffer ≡ some p
    → ((pull now c).0 ≡ expected b k) × Played n (suc k) b (pull now c).1
unfolding pull
play_found n k now b c p small inside h there =
    let here : find c.next_sequence c.buffer ≡ some p =
      ap (λ j. find j c.buffer) h.next ∙ h.ahead k (omega arith) inside ∙ there in
    rw (h.running, here)
      (
        rw (expected, there) (ap (λ j. record { kind = packet; sequence = j; payload = p }) h.next),
        record {
          running = h.running;
          next = ap (λ j. add32 j 1) h.next ∙ next_slot b k;
          base = h.base;
          ahead = λ i later ends.
              find-erase c.next_sequence (slot_at i b) c.buffer
              ∙ rw
                  (==_ne c.next_sequence (slot_at i b)
                    (λ e. slots_apart b n k i small later ends (sym h.next ∙ e)))
                  (h.ahead i (omega arith) ends);
          heard = rw (latest, there) refl;
        },
      )

-- A frame that is missing at its deadline.
play_missing :
    (n k now : ℕ) (b c : JitterBuffer)
    → k < n
    → Played n k b c
    → find (slot_at k b) b.buffer ≡ none
    → deadline (record b { next_sequence = slot_at k b }) ≤ now
    → ((pull now c).0 ≡ expected b k) × Played n (suc k) b (pull now c).1
unfolding pull
play_missing n k now b c inside h missing due =
    let here : find c.next_sequence c.buffer ≡ none =
      ap (λ j. find j c.buffer) h.next ∙ h.ahead k (omega arith) inside ∙ missing in
    let same = slot_deadline n k b c h in
    let late : leb (deadline c) now ≡ true = ground arith in
    let sounds : (if c.has_last_good then c.last_good_payload else []) ≡ or_empty (latest b k) =
      or_empty_if c.has_last_good c.last_good_payload ∙ ap or_empty h.heard in
    rw (h.running, here, late)
      (
        rw (expected, missing)
            (ap
                (λ j. record {
                  kind = concealed;
                  sequence = j;
                  payload = if c.has_last_good then c.last_good_payload else [];
                })
                h.next
              ∙ ap (λ p. record { kind = concealed; sequence = slot_at k b; payload = p }) sounds),
        record {
          running = h.running;
          next = ap (λ j. add32 j 1) h.next ∙ next_slot b k;
          base = h.base;
          ahead = λ i later ends. h.ahead i (omega arith) ends;
          heard = rw (latest, missing) h.heard;
        },
      )

module _ (now : ℕ → ℕ) (n : ℕ) (b : JitterBuffer) (running : b.started ≡ true) (small : n ≤ 2 ^ 32)
    (fits : b.next_sequence < 2 ^ 32)
    (due : (k : ℕ) → k < n → deadline (record b { next_sequence = slot_at k b }) ≤ now k) where
  play_slot :
      (k : ℕ) (c : JitterBuffer)
      → k < n
      → Played n k b c
      → ((pull (now k) c).0 ≡ expected b k) × Played n (suc k) b (pull (now k) c).1
  play_slot k c inside h = elim (Option-cases (find (slot_at k b) b.buffer)) [
    | inr (p, there) ↦ play_found n k (now k) b c p small inside h there
    | inl missing ↦ play_missing n k (now k) b c inside h missing (due k inside)
  ]

  pulled-Played : (k : ℕ) → k ≤ n → Played n k b (pulled now k b)
  unfolding pulled
  pulled-Played zero inside = record {
    running = running;
    next = omega arith;
    base = (refl, refl, refl, refl);
    ahead = λ i later ends. refl;
    heard = refl;
  }
  pulled-Played (suc k) inside =
      (play_slot k (pulled now k b) (omega arith) (pulled-Played k (omega arith))).1

  -- The playout of `n` slots, each pulled at its deadline or later, from a buffer that has started:
  -- pull `k` gives slot `k` after the next sequence number, counted modulo 2 ^ 32: the frame if it
  -- was in the buffer at the start, and else, as concealed, the payload of the latest of the slots
  -- before it whose frame was, or what was played last before them, or nothing if that is not there
  -- either. No frame is skipped, repeated or played out of order. The slots are at most 2 ^ 32.
  pub pull-expected : (k : ℕ) → k < n → (pull (now k) (pulled now k b)).0 ≡ expected b k
  pull-expected k inside = (play_slot k (pulled now k b) inside (pulled-Played k (omega arith))).0
