-- ===== src/Ipc/Pump/Delivery.antt =====
-- Every payload that one side encodes comes out on the other side, whatever the chunks.
use contextsnap.Ipc.Frame.Decode.{decode_frame-encode_frame, frame_bytes}
use contextsnap.Base.{
  Bytes, List, [], arith, flatten, length, none, suc, zero, ℕ, ◌++◌, ◌<◌, ◌^◌, ◌∙◌, ◌∷◌, ◌≡◌,
  Option, ap, drop, drop-length-append, length-append, refl, subst, sym, ◌+◌,
}
use contextsnap.Errors.{Result, value, ◌>>=◌, Error}
use contextsnap.Errors.Chain.{bind-eq-value, value_injective}
use contextsnap.Ipc.Frame.{encode_frame, decode_frame, length_prefix, prefix_bytes}
use contextsnap.Ipc.Pump.{drain, pump, with_frame}
use contextsnap.Ipc.Pump.Chunks.{AreOpen, pump-flatten, reader_of, seen, drain_empty, drain_frame}

-- What a sender writes: each payload encoded, one after the other.
abbrev pub sent : List Bytes → ℕ → Result Bytes
sent [] limit = value []
sent (p ∷ ps) limit = encode_frame p limit >>= λ f. sent ps limit >>= λ rest. value (f ++ rest)

frame_length :
    (p f : Bytes) (limit : ℕ)
    → limit < 2 ^ 32
    → encode_frame p limit ≡ value f
    → length f ≡ prefix_bytes + length p
frame_length p f limit k h =
    ap length (sym (frame_bytes p f limit k h)) ∙ length-append (length_prefix (length p)) p

after_frame :
    (p f rest : Bytes) (limit : ℕ)
    → limit < 2 ^ 32
    → encode_frame p limit ≡ value f
    → drop (prefix_bytes + length p) (f ++ rest) ≡ rest
after_frame p f rest limit k h =
    ap (λ n. drop n (f ++ rest)) (sym (frame_length p f limit k h)) ∙ drop-length-append f rest

drain-sent :
    (payloads : List Bytes) (stream : Bytes) (limit fuel : ℕ)
    → limit < 2 ^ 32
    → sent payloads limit ≡ value stream
    → length stream < fuel
    → seen (drain fuel (reader_of stream limit)) ≡ (payloads, none)
drain-sent payloads stream limit zero k h lt = absurd (omega arith)
drain-sent [] stream limit (suc fuel) k h lt =
    subst (λ s. seen (drain (suc fuel) (reader_of s limit)) ≡ ([], none)) (value_injective h)
      (ap seen (drain_empty fuel [] limit (unfold decode_frame in refl)))
drain-sent (p ∷ ps) stream limit (suc fuel) k h lt =
    let (f, framed, h') = bind-eq-value (encode_frame p limit) _ h in
    let (rest, others, same) = bind-eq-value (sent ps limit) _ h' in
    subst (λ s. seen (drain (suc fuel) (reader_of s limit)) ≡ (p ∷ ps, none)) (value_injective same)
      (ap seen (
          drain_frame fuel (f ++ rest) limit
            (record { payload = p; consumed = prefix_bytes + length p })
            (decode_frame-encode_frame p rest f limit k framed))
        ∙ ap (λ s. seen (with_frame p (drain fuel (reader_of s limit))))
            (after_frame p f rest limit k framed)
        ∙ ap (λ (o : List Bytes × Option Error). (p ∷ o.0, o.1))
            (drain-sent ps rest limit fuel k others (
              omega (
                arith,
                ap length (value_injective same),
                length-append f rest,
                frame_length p f limit k framed,
              ))))

-- All payloads that the sender could encode are delivered, in order and unchanged, and no error is
-- seen, however the stream is cut into chunks.
pub pump-sent :
    (payloads chunks : List Bytes) (limit : ℕ)
    → limit < 2 ^ 32
    → AreOpen chunks
    → sent payloads limit ≡ value (flatten chunks)
    → seen (pump chunks (record { buffer = []; max_bytes = limit })) ≡ (payloads, none)
pump-sent payloads chunks limit k open_all h =
    pump-flatten chunks limit open_all
    ∙ drain-sent payloads (flatten chunks) limit (suc (length (flatten chunks))) k h (omega arith)
