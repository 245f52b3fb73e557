-- ===== src/Net/Framing/Tests.antt =====
-- Runs of framing.hpp, and its theorems at concrete inputs.
use cascade.Base.{ℕ, ◌≡◌, refl, List, [], ◌∷◌, some, concat}
use cascade.Net.Framing.{malformed, extract, encode_frame, drain_all, receive}
use cascade.Net.Framing.Chunks.{seen, receive-eq-drain}
use cascade.Net.Framing.RoundTrip.{encode_all, receive-encode_all}

abbrev hello : List ℕ
hello = 104 ∷ 105 ∷ []

-- Two messages, the stream cut inside a header and inside a payload.
abbrev cut_stream : List (List ℕ)
cut_stream = (0 ∷ 0 ∷ []) ∷ (0 ∷ 2 ∷ 104 ∷ []) ∷ (105 ∷ 0 ∷ 0 ∷ 0 ∷ 0 ∷ []) ∷ []

encodes : encode_frame hello 2 ≡ some (0 ∷ 0 ∷ 0 ∷ 2 ∷ 104 ∷ 105 ∷ [])
unfolding encode_frame
encodes = refl

hostile : (extract (255 ∷ 0 ∷ 0 ∷ 0 ∷ [])).0 ≡ malformed
unfolding extract
hostile = refl

receive-eq-drain_example : seen (receive [] cut_stream) ≡ seen (drain_all (concat cut_stream))
receive-eq-drain_example = receive-eq-drain cut_stream

receive-encode_all_example : seen (receive [] cut_stream) ≡ (hello ∷ [] ∷ [], some [])
unfolding encode_all encode_frame concat
receive-encode_all_example = receive-encode_all (hello ∷ [] ∷ []) cut_stream refl
