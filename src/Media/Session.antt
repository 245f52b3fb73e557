-- ===== src/Media/Session.antt =====
-- cpp/core/media/audio_session.hpp and silence_detector.hpp: the two ends of an audio session. A
-- socket is the list of datagrams that are waiting, and what a call sends is its result; sends are
-- taken to succeed.
pub mod Recovery
pub mod Tests
use cascade.Base.{
  ℕ, zero, suc, ◌+◌, ◌-◌, ◌*◌, ◌/◌, ◌^◌, Bool, true, false, List, [], ◌∷◌, ◌++◌, Option, none, some,
  ltb, leb, ◌==◌, if◌then◌else◌, length,
}
use cascade.Base.Word.{add32, mul32}
use cascade.Media.AudioPacket.{
  PacketKind, DecodedPacket, audio, nack, malformed, encode_audio_packet, encode_nack,
  decode_packet,
}
use cascade.Media.JitterBuffer
use cascade.Media.JitterBuffer.{JitterBuffer, PullResult}
use cascade.Media.SendQueue.{RetransmitCache, store, get}

-- `std::abs(static_cast<int>(sample))` of the 16-bit sample in two bytes, in two's complement.
pub abs_sample : ℕ → ℕ → ℕ
abs_sample low high = let v = low + 256 * high in if ltb v (2 ^ 15) then v else 2 ^ 16 - v

-- The sum over the samples of the payload; an odd last byte is not a sample.
pub sum_abs : List ℕ → ℕ
sum_abs [] = 0
sum_abs (low ∷ []) = 0
sum_abs (low ∷ high ∷ rest) = abs_sample low high + sum_abs rest

-- The default threshold is 200.
pub is_silence : List ℕ → ℕ → ℕ → Bool
is_silence samples sample_count threshold =
    if sample_count == 0 then true else ltb (sum_abs samples / sample_count) threshold

pub record AudioSender : Type 0 where
  pub frame_interval_ms : ℕ
  pub sequence : ℕ
  pub cache : RetransmitCache

pub prepare_frame : List ℕ → AudioSender → List ℕ × AudioSender
prepare_frame payload s =
    let silent =
      if leb 2 (length payload) then is_silence payload (length payload / 2) 200 else false in
    let flags = if silent then 1 else 0 in
    let bytes =
      encode_audio_packet s.sequence (mul32 s.sequence s.frame_interval_ms) flags payload in
    (bytes, record s { cache = store s.sequence bytes s.cache; sequence = add32 s.sequence 1 })

-- What is sent again for a packet.
pub respond : DecodedPacket → AudioSender → List (List ℕ)
respond decoded s = elim decoded.kind [
  | nack ↦ elim (get decoded.sequence s.cache) [ none ↦ [] | some cached ↦ cached ∷ [] ]
  | audio ↦ []
  | malformed ↦ []
]

-- One datagram of `poll_and_handle_nacks`.
pub handle_nack : List ℕ → AudioSender → List (List ℕ)
handle_nack datagram s = respond (decode_packet datagram) s

pub poll_and_handle_nacks : List (List ℕ) → AudioSender → List (List ℕ)
poll_and_handle_nacks [] s = []
poll_and_handle_nacks (datagram ∷ datagrams) s =
    handle_nack datagram s ++ poll_and_handle_nacks datagrams s

pub record AudioReceiver : Type 0 where
  pub jitter : JitterBuffer

pub accept : ℕ → DecodedPacket → AudioReceiver → AudioReceiver
accept now_ms decoded r = elim decoded.kind [
  | audio ↦ record { jitter = JitterBuffer.push decoded.sequence decoded.payload now_ms r.jitter }
  | nack ↦ r
  | malformed ↦ r
]

-- One datagram of `poll_incoming`.
pub handle_audio : ℕ → List ℕ → AudioReceiver → AudioReceiver
handle_audio now_ms datagram r = accept now_ms (decode_packet datagram) r

pub poll_incoming : ℕ → List (List ℕ) → AudioReceiver → AudioReceiver
poll_incoming now_ms [] r = r
poll_incoming now_ms (datagram ∷ datagrams) r =
    poll_incoming now_ms datagrams (handle_audio now_ms datagram r)

pub request_retransmit : ℕ → List ℕ
request_retransmit sequence = encode_nack sequence

pub pull : ℕ → AudioReceiver → PullResult × AudioReceiver
pull now_ms r =
    let (result, b) = JitterBuffer.pull now_ms r.jitter in (result, record { jitter = b })
