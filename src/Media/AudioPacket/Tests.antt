-- ===== src/Media/AudioPacket/Tests.antt =====
-- The theorems on the wire format at concrete inputs.
use cascade.Base.{ℕ, ◌^◌, ◌≡◌, [], ◌∷◌, arith, replicate, length-replicate}
use cascade.Media.AudioPacket.{audio, malformed, encode_audio_packet, decode_packet}
use cascade.Media.AudioPacket.RoundTrip.{decode_packet-encode_audio_packet, decode_packet-too_long}

decode_packet-encode_audio_packet_example :
    decode_packet (encode_audio_packet 7 140 1 (3 ∷ 4 ∷ []))
    ≡ record { kind = audio; sequence = 7; timestamp_ms = 140; flags = 1; payload = 3 ∷ 4 ∷ [] }
decode_packet-encode_audio_packet_example =
    decode_packet-encode_audio_packet 7 140 1 (3 ∷ 4 ∷ []) (omega arith) (omega arith) (omega arith)

decode_packet-too_long_example :
    (decode_packet (encode_audio_packet 7 140 1 (replicate (2 ^ 16) 0))).kind ≡ malformed
decode_packet-too_long_example =
    decode_packet-too_long 7 140 1 (replicate (2 ^ 16) 0)
      (omega (arith, length-replicate {A = ℕ} (2 ^ 16) 0))
