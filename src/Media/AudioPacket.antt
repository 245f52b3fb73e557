-- ===== src/Media/AudioPacket.antt =====
-- cpp/core/media/audio_packet.hpp: the wire format of audio frames and retransmit requests.
pub mod RoundTrip
pub mod Tests
use cascade.Base.{
  ℕ, ◌+◌, ◌%◌, ◌^◌, List, [], ◌∷◌, ◌++◌, ltb, ◌==◌, not, if◌then◌else◌, length, take, drop,
}
use cascade.Storage.Bytes.{le_bytes, load}

pub data PacketKind : Type 0 where
  audio : PacketKind
  nack : PacketKind
  malformed : PacketKind

pub record DecodedPacket : Type 0 where
  pub kind : PacketKind
  pub sequence : ℕ
  pub timestamp_ms : ℕ
  pub flags : ℕ
  pub payload : List ℕ

abbrev pub malformed_packet : DecodedPacket
malformed_packet = record {
  kind = malformed;
  sequence = 0;
  timestamp_ms = 0;
  flags = 0;
  payload = [];
}

-- `len16` keeps the low 16 bits of the length.
pub encode_audio_packet : ℕ → ℕ → ℕ → List ℕ → List ℕ
encode_audio_packet sequence timestamp_ms flags payload =
    (0 ∷ [])
    ++ (le_bytes 4 sequence
        ++ (le_bytes 4 timestamp_ms
            ++ ((flags ∷ []) ++ (le_bytes 2 (length payload % 2 ^ 16) ++ payload))))

pub encode_nack : ℕ → List ℕ
encode_nack sequence = (1 ∷ []) ++ le_bytes 4 sequence

-- A mismatch of the length keeps the fields that were read, with the kind as malformed.
pub decode_packet : List ℕ → DecodedPacket
decode_packet data_ =
    let len = length data_ in
    let kind_byte = load 0 1 data_ in
    let header : DecodedPacket = record {
      kind = malformed;
      sequence = load 1 4 data_;
      timestamp_ms = load 5 4 data_;
      flags = load 9 1 data_;
      payload = [];
    } in
    let payload_len = load 10 2 data_ in
    if ltb len 1
    then malformed_packet
    else if kind_byte == 1
    then (if len == 5
        then record malformed_packet { kind = nack; sequence = load 1 4 data_ }
        else malformed_packet)
    else if not (kind_byte == 0)
    then malformed_packet
    else if ltb len 12
    then malformed_packet
    else if not (12 + payload_len == len)
    then header
    else record header { kind = audio; payload = take payload_len (drop 12 data_) }
