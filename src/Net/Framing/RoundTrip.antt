-- ===== src/Net/Framing/RoundTrip.antt =====
-- `encode_frame` against the decoder.
use cascade.Base.{
  ℕ, ◌+◌, ◌*◌, ◌/◌, ◌^◌, ◌≤◌, ◌<◌, ◌≡◌, refl, ap, ◌∙◌, List, [], ◌∷◌, ◌++◌, append_assoc, arith,
  ltb, length, length-append, take, take-append, drop-append, concat, Option, none, some,
  take-length, Bool-cases, Option-cases, inl, inr, ◌↔◌,
}
use Prim.Native.Nat.{bit_and}
use cascade.Base.Bits.{bit_and-ones, bit_or-shifted}
use cascade.Net.Framing.{
  malformed, frame, extract, extract_body, length_prefix, drain_all, after_extract, receive,
  max_frame_size, encode_frame, header, shl32, byte_at,
}
use cascade.Net.Framing.Chunks.{seen, receive-eq-drain, drain_step}

no_carry : (a k : ℕ) → a * 2 ^ k < 2 ^ 32 → shl32 a k ≡ a * 2 ^ k
no_carry a k h = grind arith

-- Four bytes, shifted and joined by `|`, are digits.
length_prefix-digits :
    (a b c d : ℕ)
    → a < 256
    → b < 256
    → c < 256
    → d < 256
    → length_prefix a b c d ≡ a * 2 ^ 24 + b * 2 ^ 16 + c * 2 ^ 8 + d
unfolding length_prefix
length_prefix-digits a b c d ha hb hc hd =
    let top : a * 2 ^ 24 + b * 2 ^ 16 ≡ (a * 256 + b) * 2 ^ 16 = omega arith in
    let mid : (a * 256 + b) * 2 ^ 16 + c * 2 ^ 8 ≡ ((a * 256 + b) * 256 + c) * 2 ^ 8 =
      omega arith in
    rw
      (
        no_carry a 24 (omega arith),
        no_carry b 16 (omega arith),
        no_carry c 8 (omega arith),
        bit_or-shifted 24 a (b * 2 ^ 16) (omega arith),
        top,
        bit_or-shifted 16 (a * 256 + b) (c * 2 ^ 8) (omega arith),
        mid,
        bit_or-shifted 8 ((a * 256 + b) * 256 + c) d (omega arith),
      )
      (omega arith)

-- The four bytes of the header give the length back.
length_prefix-header :
    (len : ℕ)
    → len < 2 ^ 32
    → length_prefix (byte_at len 24) (byte_at len 16) (byte_at len 8) (bit_and len 0xFF) ≡ len
length_prefix-header len h =
    rw
      (
        bit_and-ones 8 (len / 2 ^ 24),
        bit_and-ones 8 (len / 2 ^ 16),
        bit_and-ones 8 (len / 2 ^ 8),
        bit_and-ones 8 len,
      )
      (length_prefix-digits _ _ _ _ (omega arith) (omega arith) (omega arith) (omega arith)
        ∙ omega arith)

body_frame :
    (payload buffer rest : List ℕ)
    → length payload ≤ max_frame_size
    → length buffer ≡ 4 + length payload + length rest
    → extract_body (length payload) buffer (payload ++ rest) ≡ (frame payload, rest)
unfolding extract_body
body_frame payload buffer rest h e =
    ground
      (arith, take-append (length payload) payload rest, drop-append (length payload) payload rest)

extract-header :
    (payload rest : List ℕ)
    → length payload ≤ max_frame_size
    → extract (header (length payload) ++ (payload ++ rest)) ≡ (frame payload, rest)
unfolding extract header
extract-header payload rest h =
    rw (length_prefix-header (length payload) (omega arith))
      (body_frame payload _ rest h (omega (arith, length-append payload rest)))

-- What `encode_frame` writes, `try_extract` reads back, whatever follows in the buffer; it keeps
-- what follows.
extract-encode_frame :
    (payload f rest : List ℕ)
    → encode_frame payload (length payload) ≡ some f
    → extract (f ++ rest) ≡ (frame payload, rest)
unfolding encode_frame
extract-encode_frame payload f rest e = elim (Bool-cases (ltb max_frame_size (length payload))) [
  | inl big ↦ cc
  | inr fits ↦
      let same : f ≡ header (length payload) ++ take (length payload) payload = ground arith in
      rw (same, take-length payload, append_assoc (header (length payload)) payload rest)
        (extract-header payload rest (ground arith))
]

-- What the sender writes for a list of messages: the frames in order, unless one is too long.
join : Option (List ℕ) → Option (List ℕ) → Option (List ℕ)
join (some f) (some fs) = some (f ++ fs)
join (some f) none = none
join none _ = none

unfoldable pub encode_all : List (List ℕ) → Option (List ℕ)
unfolding join
encode_all [] = some []
encode_all (m ∷ ms) = join (encode_frame m (length m)) (encode_all ms)

-- A stream that starts with the frame of `m` drains to `m` and the rest's frames.
drain-frame :
    (m f rest : List ℕ) (ms : List (List ℕ))
    → encode_frame m (length m) ≡ some f
    → seen (drain_all rest) ≡ (ms, some [])
    → seen (drain_all (f ++ rest)) ≡ (m ∷ ms, some [])
unfolding seen after_extract
drain-frame m f rest ms e h =
    rw (drain_step (f ++ rest), extract-encode_frame m f rest e)
      (ap (λ (s : List (List ℕ) × Option (List ℕ)). (m ∷ s.0, s.1)) h)

drain-encode_all :
    (ms : List (List ℕ)) (bytes : List ℕ)
    → encode_all ms ≡ some bytes
    → seen (drain_all bytes) ≡ (ms, some [])
unfolding encode_all
drain-encode_all [] bytes e = let same : bytes ≡ [] = ground arith in rw same nothing
  where
    nothing : seen (drain_all []) ≡ ([], some [])
    nothing = unfold seen drain_all in refl
drain-encode_all (m ∷ ms) bytes e = elim (Option-cases (encode_frame m (length m))) [
  | inl no_frame ↦ absurd (ground (arith, no_frame))
  | inr (f, ef) ↦ elim (Option-cases (encode_all ms)) [
    | inl no_rest ↦ absurd (ground (arith, ef, no_rest))
    | inr (fs, efs) ↦
        let same : bytes ≡ f ++ fs = ground (arith, ef, efs) in
        rw same (drain-frame m f fs ms ef (drain-encode_all ms fs efs))
  ]
]

-- Whatever the messages and however the network cuts the stream of their frames, the receiver gets
-- exactly these messages in order, no error, and keeps no bytes.
pub receive-encode_all :
    (ms chunks : List (List ℕ))
    → encode_all ms ≡ some (concat chunks)
    → seen (receive [] chunks) ≡ (ms, some [])
receive-encode_all ms chunks e = receive-eq-drain chunks ∙ drain-encode_all ms (concat chunks) e

-- Both sides have one limit: for a 32-bit length, `encode_frame` throws exactly when the decoder
-- throws at a header of that length, whatever follows.
limits_agree :
    (payload rest : List ℕ)
    → length payload < 2 ^ 32
    → (encode_frame payload (length payload) ≡ none)
      ↔ ((extract (header (length payload) ++ rest)).0 ≡ malformed)
unfolding encode_frame extract header extract_body
limits_agree payload rest h = rw (length_prefix-header (length payload) h) (ground arith)
