-- ===== src/Ipc/Tests.antt =====
-- Frames at concrete inputs.
use contextsnap.Base.{
  Bytes, List, [], arith, codes, flatten, none, refl, some, take, ◌++◌, ◌+◌, ◌∷◌, ◌≡◌,
}
use contextsnap.Errors.{value}
use contextsnap.Ipc.Frame.{decode_frame, encode_frame, length_prefix, prefix_bytes}
use contextsnap.Ipc.Frame.Decode.{decode_frame-encode_frame, decode_frame-take}
use contextsnap.Ipc.Pump.{drain_all, pump}
use contextsnap.Ipc.Pump.Chunks.{AreOpen, pump-flatten, seen}
use contextsnap.Ipc.Pump.Delivery.{pump-sent}

framed : encode_frame (codes "ping") 16 ≡ value (4 ∷ 0 ∷ 0 ∷ 0 ∷ codes "ping")
unfolding encode_frame
framed = refl

decode_frame-encode_frame_example :
    decode_frame ((4 ∷ 0 ∷ 0 ∷ 0 ∷ codes "ping") ++ codes "xy") 16
    ≡ value (some (record { payload = codes "ping"; consumed = prefix_bytes + 4 }))
decode_frame-encode_frame_example =
    decode_frame-encode_frame (codes "ping") (codes "xy") (4 ∷ 0 ∷ 0 ∷ 0 ∷ codes "ping") 16
      (omega arith) framed

decode_frame-take_example : decode_frame (take 6 (length_prefix 4 ++ codes "ping")) 16 ≡ value none
decode_frame-take_example =
    decode_frame-take (codes "ping") 16 6 (omega arith) (omega arith) (omega arith)

-- Two payloads in three chunks that cut both frames.
abbrev chunks : List Bytes
chunks = (2 ∷ 0 ∷ 0 ∷ []) ∷ (0 ∷ codes "ok" ++ 1 ∷ 0 ∷ []) ∷ (0 ∷ 0 ∷ codes "!") ∷ []

chunks_open : AreOpen chunks
chunks_open = ((λ e. cc), ((λ e. cc), ((λ e. cc), tt)))

pump-flatten_example :
    seen (pump chunks (record { buffer = []; max_bytes = 16 }))
    ≡ seen (drain_all (record { buffer = flatten chunks; max_bytes = 16 }))
pump-flatten_example = pump-flatten chunks 16 chunks_open

pump-sent_example :
    seen (pump chunks (record { buffer = []; max_bytes = 16 }))
    ≡ (codes "ok" ∷ codes "!" ∷ [], none)
pump-sent_example =
    pump-sent (codes "ok" ∷ codes "!" ∷ []) chunks 16 (omega arith) chunks_open
      (unfold encode_frame in refl)
