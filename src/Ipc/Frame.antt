-- ===== src/Ipc/Frame.antt =====
-- src/ipc/protocol.cpp: the frame codec and the incremental reader. A frame is a four-byte
-- little-endian length and the payload.
pub mod Decode
use contextsnap.Base.{
  Bytes, Option, [], codes, drop, if◌then◌else◌, length, ltb, none, some, take, ℕ, ◌%◌, ◌*◌, ◌++◌,
  ◌+◌, ◌/◌, ◌^◌, ◌∷◌,
}
use contextsnap.Errors.{Result, error, protocol, value}

abbrev pub max_frame_bytes : ℕ
max_frame_bytes = 16 * 1024 * 1024

abbrev pub prefix_bytes : ℕ
prefix_bytes = 4

-- The four pushes of `length`'s bytes; `length` is a `uint32_t`.
abbrev pub length_prefix : ℕ → Bytes
length_prefix n = n % 256 ∷ n / 256 % 256 ∷ n / 65536 % 256 ∷ n / 16777216 % 256 ∷ []

unfoldable pub encode_frame : Bytes → ℕ → Result Bytes
encode_frame payload max_bytes =
    if ltb max_bytes (length payload)
    then error (protocol (codes "payload exceeds the frame limit") (codes "ipc.encode_frame"))
    else value (length_prefix (length payload % 2 ^ 32) ++ payload)

pub record DecodedFrame : Type 0 where
  pub payload : Bytes
  pub consumed : ℕ

-- The rest of `decode_frame` behind the computation of `length`.
unfoldable pub frame_of : ℕ → Bytes → ℕ → Result (Option DecodedFrame)
frame_of len rest max_bytes =
    if ltb max_bytes len
    then error (protocol (codes "frame length exceeds the limit") (codes "ipc.decode_frame"))
    else if ltb (prefix_bytes + length rest) (prefix_bytes + len)
    then value none
    else value (some (record { payload = take len rest; consumed = prefix_bytes + len }))

-- Bytes are below 256, so the `|` of the shifted bytes is their sum.
unfoldable pub decode_frame : Bytes → ℕ → Result (Option DecodedFrame)
decode_frame (b0 ∷ b1 ∷ b2 ∷ b3 ∷ rest) max_bytes =
    frame_of (b0 + b1 * 256 + b2 * 65536 + b3 * 16777216) rest max_bytes
decode_frame _ max_bytes = value none

-- `FrameReader`.
pub record FrameReader : Type 0 where
  pub buffer : Bytes
  pub max_bytes : ℕ

unfoldable pub feed : FrameReader → Bytes → FrameReader
feed r bytes = record r { buffer = r.buffer ++ bytes }

abbrev pop : FrameReader → Result (Option DecodedFrame) → Result (Option Bytes) × FrameReader
pop r (error e) = (error e, r)
pop r (value none) = (value none, r)
pop r (value (some frame)) =
    (value (some frame.payload), record r { buffer = drop frame.consumed r.buffer })

unfoldable pub next : FrameReader → Result (Option Bytes) × FrameReader
next r = pop r (decode_frame r.buffer r.max_bytes)

unfoldable pub reset : FrameReader → FrameReader
reset r = record r { buffer = [] }
