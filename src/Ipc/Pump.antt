-- ===== src/Ipc/Pump.antt =====
-- The loop that turns the chunks of a stream into frames: `Server::serve_client`
-- (src/ipc/server.cpp) and `pump` (src/browser/native_messaging.cpp) share it. A chunk is what one
-- `read_some` returns; an empty one means that the peer closed the connection.
pub mod Chunks
pub mod Delivery
-- The frames that were popped, the reader that is left, and the framing error, if there was one.
use contextsnap.Base.{Bytes, List, Option, [], length, none, some, suc, zero, ℕ, ◌++◌, ◌∷◌}
use contextsnap.Errors.{Error, Result, error, value}
use contextsnap.Ipc.Frame.{FrameReader, feed, next}

pub record Drained : Type 0 where
  pub frames : List Bytes
  pub reader : FrameReader
  pub failure : Option Error

abbrev pub with_frame : Bytes → Drained → Drained
with_frame p d = record d { frames = p ∷ d.frames }

abbrev pub with_frames : List Bytes → Drained → Drained
with_frames ps d = record d { frames = ps ++ d.frames }

abbrev pub drain_step : (FrameReader → Drained) → Result (Option Bytes) × FrameReader → Drained
drain_step more (error e, r) = record { frames = []; reader = r; failure = some e }
drain_step more (value none, r) = record { frames = []; reader = r; failure = none }
drain_step more (value (some p), r) = with_frame p (more r)

-- `while (true) { auto next = reader.next(); ... }`. Every frame takes four bytes or more from the
-- buffer, so fuel above the buffer's length is enough.
unfoldable pub drain : ℕ → FrameReader → Drained
drain zero r = record { frames = []; reader = r; failure = none }
drain (suc fuel) r = drain_step (drain fuel) (next r)

abbrev pub drain_all : FrameReader → Drained
drain_all r = drain (suc (length r.buffer)) r

abbrev pub after_chunk : (FrameReader → Drained) → Drained → Drained
after_chunk more d = elim d.failure [ some e ↦ d | none ↦ with_frames d.frames (more d.reader) ]

-- The outer loop. A framing error ends it, and so does an empty chunk.
unfoldable pub pump : List Bytes → FrameReader → Drained
pump [] r = record { frames = []; reader = r; failure = none }
pump ([] ∷ chunks) r = record { frames = []; reader = r; failure = none }
pump ((b ∷ bs) ∷ chunks) r = after_chunk (pump chunks) (drain_all (feed r (b ∷ bs)))
