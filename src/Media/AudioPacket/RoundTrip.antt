-- ===== src/Media/AudioPacket/RoundTrip.antt =====
-- The wire format read back.
use cascade.Base.{
  ℕ, ◌+◌, ◌%◌, ◌^◌, ◌≤◌, ◌<◌, ◌≡◌, refl, ap, sym, ◌∙◌, ◌≢◌, List, [], ◌∷◌, ◌++◌, arith, append-nil,
  length, length-append, take, drop, take-length, drop-append_add, drop-append,
}
use cascade.Storage.Bytes.{le_bytes, load, of_le, load-append, load-le_bytes, length-le_bytes}
use cascade.Media.AudioPacket.{
  audio, nack, malformed, encode_audio_packet, encode_nack, decode_packet,
}

module _ (q t f n : ℕ) (p : List ℕ) where
  -- The fields of an audio packet, with `n` in the length's place.
  abbrev wire : List ℕ
  wire = (0 ∷ []) ++ (le_bytes 4 q ++ (le_bytes 4 t ++ ((f ∷ []) ++ (le_bytes 2 n ++ p))))

  length-wire : length wire ≡ 12 + length p
  length-wire = omega (
    arith,
    length-append (le_bytes 4 q) (le_bytes 4 t ++ ((f ∷ []) ++ (le_bytes 2 n ++ p))),
    length-append (le_bytes 4 t) ((f ∷ []) ++ (le_bytes 2 n ++ p)),
    length-append (le_bytes 2 n) p,
    length-le_bytes 4 q,
    length-le_bytes 4 t,
    length-le_bytes 2 n,
  )

  wire_sequence : q < 2 ^ 32 → load 1 4 wire ≡ q
  wire_sequence h =
      load-append 1 0 4 (0 ∷ [])
        (le_bytes 4 q ++ (le_bytes 4 t ++ ((f ∷ []) ++ (le_bytes 2 n ++ p)))) refl
      ∙ load-le_bytes 4 q (le_bytes 4 t ++ ((f ∷ []) ++ (le_bytes 2 n ++ p))) (omega arith)

  wire_timestamp : t < 2 ^ 32 → load 5 4 wire ≡ t
  wire_timestamp h =
      load-append 5 4 4 (0 ∷ [])
        (le_bytes 4 q ++ (le_bytes 4 t ++ ((f ∷ []) ++ (le_bytes 2 n ++ p)))) refl
      ∙ load-append 4 0 4 (le_bytes 4 q) (le_bytes 4 t ++ ((f ∷ []) ++ (le_bytes 2 n ++ p)))
          (omega (arith, length-le_bytes 4 q))
      ∙ load-le_bytes 4 t ((f ∷ []) ++ (le_bytes 2 n ++ p)) (omega arith)

  behind_times : (k j : ℕ) → load (9 + j) k wire ≡ load j k ((f ∷ []) ++ (le_bytes 2 n ++ p))
  behind_times k j =
      load-append (9 + j) (8 + j) k (0 ∷ [])
        (le_bytes 4 q ++ (le_bytes 4 t ++ ((f ∷ []) ++ (le_bytes 2 n ++ p)))) (omega arith)
      ∙ load-append (8 + j) (4 + j) k (le_bytes 4 q)
          (le_bytes 4 t ++ ((f ∷ []) ++ (le_bytes 2 n ++ p))) (omega (arith, length-le_bytes 4 q))
      ∙ load-append (4 + j) j k (le_bytes 4 t) ((f ∷ []) ++ (le_bytes 2 n ++ p))
          (omega (arith, length-le_bytes 4 t))

  wire_flags : load 9 1 wire ≡ f
  unfolding load of_le
  wire_flags = behind_times 1 0 ∙ omega arith

  wire_length : n < 2 ^ 16 → load 10 2 wire ≡ n
  wire_length h =
      behind_times 2 1
      ∙ load-append 1 0 2 (f ∷ []) (le_bytes 2 n ++ p) refl
      ∙ load-le_bytes 2 n p (omega arith)

  wire_kind : load 0 1 wire ≡ 0
  unfolding load of_le
  wire_kind = omega arith

  wire_payload : take (length p) (drop 12 wire) ≡ p
  wire_payload =
      ap (take (length p)) (
        drop-append_add 4 11 7 (le_bytes 4 q) (le_bytes 4 t ++ ((f ∷ []) ++ (le_bytes 2 n ++ p)))
          (sym (length-le_bytes 4 q)) refl
        ∙ drop-append_add 4 7 3 (le_bytes 4 t) ((f ∷ []) ++ (le_bytes 2 n ++ p))
            (sym (length-le_bytes 4 t)) refl
        ∙ drop-append 2 (le_bytes 2 n) p (sym (length-le_bytes 2 n)))
      ∙ take-length p

-- The branches of the decoder.
module _ (d : List ℕ) where
  decode_audio :
      (n : ℕ)
      → load 0 1 d ≡ 0
      → length d ≡ 12 + n
      → load 10 2 d ≡ n
      → decode_packet d ≡ record {
        kind = audio;
        sequence = load 1 4 d;
        timestamp_ms = load 5 4 d;
        flags = load 9 1 d;
        payload = take n (drop 12 d);
      }
  unfolding decode_packet
  decode_audio n a b c = ground arith

  decode_mismatch :
      load 0 1 d ≡ 0
      → 12 ≤ length d
      → 12 + load 10 2 d ≢ length d
      → (decode_packet d).kind ≡ malformed
  unfolding decode_packet
  decode_mismatch a b c = ground arith

  decode_nack :
      load 0 1 d ≡ 1
      → length d ≡ 5
      → decode_packet d
        ≡ record { kind = nack; sequence = load 1 4 d; timestamp_ms = 0; flags = 0; payload = [] }
  unfolding decode_packet
  decode_nack a b = ground arith

-- An audio packet whose fields have the widths of their types and whose payload is shorter than
-- 65536 bytes is decoded to what was encoded.
pub decode_packet-encode_audio_packet :
    (sequence timestamp_ms flags : ℕ) (payload : List ℕ)
    → sequence < 2 ^ 32
    → timestamp_ms < 2 ^ 32
    → length payload < 2 ^ 16
    → decode_packet (encode_audio_packet sequence timestamp_ms flags payload) ≡ record {
      kind = audio;
      sequence = sequence;
      timestamp_ms = timestamp_ms;
      flags = flags;
      payload = payload;
    }
unfolding encode_audio_packet
decode_packet-encode_audio_packet q t f p hq ht hp =
    let n : length p % 2 ^ 16 ≡ length p = omega arith in
    rw (n) (
      decode_audio (wire q t f (length p) p) (length p) (wire_kind q t f (length p) p)
        (length-wire q t f (length p) p) (wire_length q t f (length p) p hp)
      ∙ rw
          (
            wire_sequence q t f (length p) p hq,
            wire_timestamp q t f (length p) p ht,
            wire_flags q t f (length p) p,
            wire_payload q t f (length p) p,
          )
          refl)

-- A longer payload never comes back: its packet is decoded as malformed.
pub decode_packet-too_long :
    (sequence timestamp_ms flags : ℕ) (payload : List ℕ)
    → 2 ^ 16 ≤ length payload
    → (decode_packet (encode_audio_packet sequence timestamp_ms flags payload)).kind ≡ malformed
unfolding encode_audio_packet
decode_packet-too_long q t f p long =
    let n = length p % 2 ^ 16 in
    let size = length-wire q t f n p in
    let read = wire_length q t f n p (omega arith) in
    decode_mismatch (wire q t f n p) (wire_kind q t f n p) (omega arith) (λ e. absurd (omega arith))

-- A retransmit request is decoded to the sequence number that it asks for.
pub decode_packet-encode_nack :
    (sequence : ℕ)
    → sequence < 2 ^ 32
    → decode_packet (encode_nack sequence)
      ≡ record { kind = nack; sequence = sequence; timestamp_ms = 0; flags = 0; payload = [] }
unfolding encode_nack
decode_packet-encode_nack q h =
    decode_nack ((1 ∷ []) ++ le_bytes 4 q) one (omega (arith, length-le_bytes 4 q))
    ∙ rw (asked) refl
  where
    one : load 0 1 ((1 ∷ []) ++ le_bytes 4 q) ≡ 1
    one = unfold load of_le in omega arith

    asked : load 1 4 ((1 ∷ []) ++ le_bytes 4 q) ≡ q
    asked =
        load-append 1 0 4 (1 ∷ []) (le_bytes 4 q) refl
        ∙ ap (load 0 4) (sym (append-nil (le_bytes 4 q)))
        ∙ load-le_bytes 4 q [] (omega arith)
