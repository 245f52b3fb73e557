-- ===== src/Media/JitterBuffer/Play.antt =====
-- What the jitter buffer plays.
use cascade.Base.{
  ℕ, ◌+◌, ◌^◌, ◌≤◌, ◌<◌, ◌≡◌, refl, ◌≢◌, ◌⊎◌, true, false, List, none, some, arith, ltb, leb, ◌==◌,
  ==_refl, Bool-cases, if◌then◌else◌, Option-cases, inl, inr,
}
use cascade.Base.Word.{add32}
use cascade.Base.Dict.{find, insert, find-insert}
use cascade.Media.JitterBuffer.{JitterBuffer, packet, not_ready, push, pull, deadline}

-- A frame that arrives in time is found under its sequence number, and no other frame is changed.
pub find-push :
    (q : ℕ) (p : List ℕ) (t j : ℕ) (b : JitterBuffer)
    → b.started ≡ true
    → b.next_sequence ≤ q
    → find j (push q p t b).buffer ≡ (if q == j then some p else find j b.buffer)
unfolding push
find-push q p t j b running early =
    let e : ltb q b.next_sequence ≡ false = ground arith in
    rw (running, e) (find-insert q j p b.buffer)

-- A pull of a running buffer answers for the next sequence number and moves on by one, or changes
-- nothing. It changes nothing only while the frame is not there and its deadline has not come.
pull_in_order :
    (now : ℕ) (b : JitterBuffer)
    → b.started ≡ true
    → (((pull now b).0.kind ≡ not_ready)
        × ((pull now b).1 ≡ b)
        × (find b.next_sequence b.buffer ≡ none)
        × (now < deadline b))
      ⊎ (((pull now b).0.sequence ≡ b.next_sequence)
          × ((pull now b).1.next_sequence ≡ add32 b.next_sequence 1)
          × ((find b.next_sequence b.buffer ≢ none) ⊎ (deadline b ≤ now)))
unfolding pull
pull_in_order now b running = elim (Option-cases (find b.next_sequence b.buffer)) [
  | inr (p, there) ↦
      inr (rw (running, there) refl, rw (running, there) refl, inl (λ e. absurd (cc)))
  | inl missing ↦ elim (Bool-cases (leb (deadline b) now)) [
    | inl late ↦
        inr (rw (running, missing, late) refl, rw (running, missing, late) refl, inr (ground arith))
    | inr early ↦
        let waits : (pull now b).1 ≡ b = ground arith in
        inl (rw (running, missing, early) refl, waits, missing, ground arith)
  ]
]

pull-found :
    (now : ℕ) (b : JitterBuffer) (p : List ℕ)
    → b.started ≡ true
    → find b.next_sequence b.buffer ≡ some p
    → (pull now b).0 ≡ record { kind = packet; sequence = b.next_sequence; payload = p }
unfolding pull
pull-found now b p running there = rw (running, there) refl

push-next :
    (t : ℕ) (p : List ℕ) (b : JitterBuffer)
    → b.started ≡ true
    → push b.next_sequence p t b ≡ record b { buffer = insert b.next_sequence p b.buffer }
unfolding push
push-next t p b running = ground arith

-- A frame that has been pushed for the next slot is what the next pull plays, whatever the time.
pull-push :
    (now t : ℕ) (p : List ℕ) (b : JitterBuffer)
    → b.started ≡ true
    → (pull now (push b.next_sequence p t b)).0
      ≡ record { kind = packet; sequence = b.next_sequence; payload = p }
pull-push now t p b running =
    let there : find b.next_sequence (insert b.next_sequence p b.buffer) ≡ some p =
      rw (find-insert b.next_sequence b.next_sequence p b.buffer, ==_refl b.next_sequence) refl in
    rw (push-next t p b running)
      (pull-found now (record b { buffer = insert b.next_sequence p b.buffer }) p running there)

-- The concealed frames are among the played ones, before and after a pull.
pull-counts :
    (now : ℕ) (b : JitterBuffer)
    → b.packets_played + 1 < 2 ^ 64
    → b.concealed_count ≤ b.packets_played
    → (pull now b).1.concealed_count ≤ (pull now b).1.packets_played
unfolding pull
pull-counts now b small h = ground arith
