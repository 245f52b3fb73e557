-- ===== src/Net/Framing.antt =====
-- cpp/core/net/framing.hpp: length-prefixed frames and the incremental decoder. A byte is a number
-- below 256, a payload pointer with its length is a list.
pub mod Chunks
pub mod RoundTrip
pub mod Tests
use Prim.Native.Nat.{bit_and, bit_or}
use cascade.Base.{
  ℕ, zero, suc, ◌+◌, ◌*◌, ◌/◌, ◌%◌, ◌^◌, Bool, true, false, List, [], ◌∷◌, ◌++◌, ltb, if◌then◌else◌,
  length, take, drop, Option, none, some,
}
use cascade.Base.Word.{add32}

abbrev pub max_frame_size : ℕ
max_frame_size = 16 * 1024 * 1024

-- The byte of `v` at bit `k`, as `static_cast<std::uint8_t>((v >> k) & 0xFF)` cuts it.
abbrev pub byte_at : ℕ → ℕ → ℕ
byte_at v k = bit_and (v / 2 ^ k) 0xFF

pub header : ℕ → List ℕ
header len = byte_at len 24 ∷ byte_at len 16 ∷ byte_at len 8 ∷ bit_and len 0xFF ∷ []

-- `none` is the `runtime_error`.
unfoldable pub encode_frame : List ℕ → ℕ → Option (List ℕ)
unfolding header
encode_frame payload len =
    if ltb max_frame_size len then none else some (header len ++ take len payload)

-- The overload for strings casts the size to 32 bits first.
pub encode_frame_string : List ℕ → Option (List ℕ)
unfolding encode_frame
encode_frame_string payload = encode_frame payload (length payload % 2 ^ 32)

pub record FrameDecoder : Type 0 where
  pub buffer : List ℕ

pub feed : FrameDecoder → List ℕ → FrameDecoder
feed d bytes = record d { buffer = d.buffer ++ bytes }

-- `wait` is the `nullopt` of `try_extract`, `malformed` its `runtime_error`.
pub data Extract : Type 0 where
  malformed wait : Extract
  frame : List ℕ → Extract

-- `static_cast<std::uint32_t>(b) << k`
abbrev pub shl32 : ℕ → ℕ → ℕ
shl32 b k = b * 2 ^ k % 2 ^ 32

pub length_prefix : ℕ → ℕ → ℕ → ℕ → ℕ
length_prefix a b c d = bit_or (bit_or (bit_or (shl32 a 24) (shl32 b 16)) (shl32 c 8)) d

-- The rest of `try_extract`, once the buffer holds a length prefix and then `rest`.
pub extract_body : ℕ → List ℕ → List ℕ → Extract × List ℕ
extract_body len buffer rest =
    if ltb max_frame_size len
    then (malformed, buffer)
    else if ltb (length buffer) (add32 4 len)
    then (wait, buffer)
    else (frame (take len rest), drop len rest)

-- `try_extract` on the bytes of the buffer: fewer than four are left to wait.
pub extract : List ℕ → Extract × List ℕ
unfolding extract_body length_prefix
extract [] = (wait, [])
extract (a ∷ []) = (wait, a ∷ [])
extract (a ∷ b ∷ []) = (wait, a ∷ b ∷ [])
extract (a ∷ b ∷ c ∷ []) = (wait, a ∷ b ∷ c ∷ [])
extract (a ∷ b ∷ c ∷ d ∷ rest) = extract_body (length_prefix a b c d) (a ∷ b ∷ c ∷ d ∷ rest) rest

pub try_extract : FrameDecoder → Extract × FrameDecoder
unfolding extract
try_extract d = let (e, left) = extract d.buffer in (e, record d { buffer = left })

pub buffered_bytes : FrameDecoder → ℕ
buffered_bytes d = length d.buffer

-- What the inner loop of `TcpServer::handle_readable` gets, calling `try_extract` until it stops:
-- the frames, whether it threw, and the bytes left.
pub record Drained : Type 0 where
  pub frames : List (List ℕ)
  pub failed : Bool
  pub left : List ℕ

abbrev pub with_frame : List ℕ → Drained → Drained
with_frame p r = record r { frames = p ∷ r.frames }

pub after_extract : (List ℕ → Drained) → Extract × List ℕ → Drained
after_extract again (malformed, left) = record { frames = []; failed = true; left = left }
after_extract again (wait, left) = record { frames = []; failed = false; left = left }
after_extract again (frame p, left) = with_frame p (again left)

pub drain : ℕ → List ℕ → Drained
unfolding after_extract extract
drain zero buffer = record { frames = []; failed = false; left = buffer }
drain (suc fuel) buffer = after_extract (drain fuel) (extract buffer)

-- Every frame takes four bytes or more, so the buffer's length is fuel enough.
unfoldable pub drain_all : List ℕ → Drained
unfolding drain
drain_all buffer = drain (suc (length buffer)) buffer

-- Where an error ends the reading, else what comes later joins on.
abbrev pub continue : Drained → Drained → Drained
continue r later =
    if r.failed
    then r
    else record { frames = r.frames ++ later.frames; failed = later.failed; left = later.left }

-- The loop of `TcpServer::handle_readable` over what `recv` returns: feed, then drain. A failure
-- drops the connection, after the frames that came before it.
pub receive : List ℕ → List (List ℕ) → Drained
receive buffer [] = record { frames = []; failed = false; left = buffer }
receive buffer (chunk ∷ chunks) =
    let r = drain_all (buffer ++ chunk) in continue r (receive r.left chunks)
