-- ===== src/Media/Session/Recovery.antt =====
-- A lost frame is recovered.
use cascade.Base.{
  Bool, suc, ◌+◌, ◌%◌, ◌≤◌, ◌≢◌, ◌==◌, true, ap, ◌∙◌, ℕ, ◌/◌, ◌^◌, ◌<◌, ◌≡◌, refl, false, List, [],
  ◌∷◌, some, if◌then◌else◌, leb, arith, length,
}
use cascade.Base.Word.{mul32}
use cascade.Media.AudioPacket.{encode_audio_packet, encode_nack}
use cascade.Media.AudioPacket.RoundTrip.{
  decode_packet-encode_audio_packet, decode_packet-encode_nack,
}
use cascade.Media.JitterBuffer
use cascade.Media.JitterBuffer.{JitterBuffer, PullResult}
use cascade.Media.SendQueue.{get}
use cascade.Media.SendQueue.Cache.{IsNew}
use cascade.Media.SendQueue.Window.{
  KeepsPacket, store-KeepsPacket, store-KeepsPacket_new, store-capacity,
}
use cascade.Media.JitterBuffer.Play.{find-push}
use cascade.Base.Dict.{find}
use cascade.Media.Session.{
  AudioSender, AudioReceiver, prepare_frame, handle_nack, handle_audio, respond, accept,
  request_retransmit, is_silence,
}

nack_sends :
    (q : ℕ) (bytes : List ℕ) (t : AudioSender)
    → q < 2 ^ 32
    → get q t.cache ≡ some bytes
    → handle_nack (encode_nack q) t ≡ bytes ∷ []
unfolding handle_nack respond
nack_sends q bytes t small there = rw (decode_packet-encode_nack q small) (rw (there, respond) refl)

audio_pushes :
    (q time flags : ℕ) (p : List ℕ) (now : ℕ) (r : AudioReceiver)
    → q < 2 ^ 32
    → time < 2 ^ 32
    → length p < 2 ^ 16
    → handle_audio now (encode_audio_packet q time flags p) r
      ≡ record { jitter = JitterBuffer.push q p now r.jitter }
unfolding handle_audio accept
audio_pushes q time flags p now r a b c =
    rw (decode_packet-encode_audio_packet q time flags p a b c) refl

prepare_capacity :
    (payload : List ℕ) (s : AudioSender)
    → (prepare_frame payload s).1.cache.capacity ≡ s.cache.capacity
unfolding prepare_frame
prepare_capacity payload s = store-capacity s.sequence (prepare_frame payload s).0 s.cache

-- The sender after more frames.
abbrev pub prepare_all : List (List ℕ) → AudioSender → AudioSender
prepare_all [] s = s
prepare_all (payload ∷ payloads) s = prepare_all payloads (prepare_frame payload s).1

prepare_all-KeepsPacket :
    (q m : ℕ) (bytes : List ℕ) (later : List (List ℕ)) (s : AudioSender)
    → q < 2 ^ 32
    → s.sequence ≡ (q + m + 1) % 2 ^ 32
    → m + length later < s.cache.capacity
    → m + length later + 1 < 2 ^ 32
    → KeepsPacket q bytes m s.cache
    → KeepsPacket q bytes (m + length later) (prepare_all later s).cache
unfolding prepare_frame
prepare_all-KeepsPacket q m bytes [] s small next room short h =
    let e : m + 0 ≡ m = omega arith in rw (e) h
prepare_all-KeepsPacket q m bytes (payload ∷ later) s small next room short h =
    let e : m + suc (length later) ≡ m + 1 + length later = omega arith in
    let other : s.sequence ≢ q = λ same. absurd (omega arith) in
    rw (e) (
      prepare_all-KeepsPacket q (m + 1) bytes later (prepare_frame payload s).1 small (omega arith)
        (rw (prepare_capacity payload s) (omega arith)) (omega arith)
        (store-KeepsPacket q s.sequence m bytes (prepare_frame payload s).0 s.cache (omega arith)
          other h))

-- A frame can be lost and asked for again while fewer frames than the cache's capacity, and fewer
-- than 2 ^ 32 - 1, have been prepared after it. The sender answers the request for its sequence
-- number with the frame's packet, byte for byte; and where a receiver that has started has not yet
-- passed that number, the packet puts the frame's payload into the jitter buffer under its number
-- and leaves the other frames there as they are. The frame has the sender's next number, which the
-- cache does not list.
pub retransmit-recovers :
    (payload : List ℕ) (later : List (List ℕ)) (now : ℕ) (s : AudioSender) (r : AudioReceiver)
    (j : ℕ)
    → s.sequence < 2 ^ 32
    → length payload < 2 ^ 16
    → length later < s.cache.capacity
    → length later + 1 < 2 ^ 32
    → IsNew s.sequence s.cache.order
    → r.jitter.started ≡ true
    → r.jitter.next_sequence ≤ s.sequence
    → (handle_nack (request_retransmit s.sequence) (prepare_all later (prepare_frame payload s).1)
        ≡ (prepare_frame payload s).0 ∷ [])
      × (find j (handle_audio now (prepare_frame payload s).0 r).jitter.buffer
          ≡ (if s.sequence == j then some payload else find j r.jitter.buffer))
unfolding prepare_frame request_retransmit
retransmit-recovers payload later now s r j small short room bounded fresh running early =
    let silent : Bool =
      if leb 2 (length payload) then is_silence payload (length payload / 2) 200 else false in
    let flags : ℕ = if silent then 1 else 0 in
    let time : ℕ = mul32 s.sequence s.frame_interval_ms in
    let bytes : List ℕ = encode_audio_packet s.sequence time flags payload in
    let kept : KeepsPacket s.sequence bytes (0 + length later)
        (prepare_all later (prepare_frame payload s).1).cache =
      prepare_all-KeepsPacket s.sequence 0 bytes later (prepare_frame payload s).1 small
        (omega arith) (rw (prepare_capacity payload s) (omega arith)) (omega arith)
        (store-KeepsPacket_new s.sequence bytes s.cache (omega arith) fresh) in
    (
      nack_sends s.sequence bytes (prepare_all later (prepare_frame payload s).1) small kept.there,
      ap (λ x. find j x.jitter.buffer)
            (audio_pushes s.sequence time flags payload now r small (omega arith) short)
          ∙ find-push s.sequence payload now j r.jitter running early,
    )
