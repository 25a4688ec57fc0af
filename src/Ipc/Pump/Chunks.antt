-- ===== src/Ipc/Pump/Chunks.antt =====
-- How the stream is cut into chunks makes no difference to the frames that come out of it.
use contextsnap.Base.{
  Bytes, [], drop, none, some, suc, ℕ, ◌≡◌, List, Option, ap, arith, length, refl, sym, zero, ◌<◌,
  ◌∙◌, ◌≤◌, length-append, ◌++◌, ◌+◌, ◌∷◌, append-nil, flatten, ◌≢◌, append_assoc, subst,
}
use contextsnap.Errors.{Error, error, value, Result}
use contextsnap.Ipc.Frame.Decode.{decode_frame-append, decode_frame-append_error}
use contextsnap.Ipc.Frame.{DecodedFrame, FrameReader, decode_frame, next, feed}
use contextsnap.Ipc.Pump.{drain, with_frame, Drained, after_chunk, drain_all, pump, with_frames}

abbrev pub reader_of : Bytes → ℕ → FrameReader
reader_of b limit = record { buffer = b; max_bytes = limit }

-- One round of the loop, for each outcome of the decoder.
module _ (f : ℕ) (b : Bytes) (limit : ℕ) where
  pub drain_empty :
      decode_frame b limit ≡ value none
      → drain (suc f) (reader_of b limit)
        ≡ record { frames = []; reader = reader_of b limit; failure = none }
  unfolding drain next
  drain_empty h = rw h

  drain_error :
      (e : Error)
      → decode_frame b limit ≡ error e
      → drain (suc f) (reader_of b limit)
        ≡ record { frames = []; reader = reader_of b limit; failure = some e }
  unfolding drain next
  drain_error e h = rw h

  pub drain_frame :
      (d : DecodedFrame)
      → decode_frame b limit ≡ value (some d)
      → drain (suc f) (reader_of b limit)
        ≡ with_frame d.payload (drain f (reader_of (drop d.consumed b) limit))
  unfolding drain next
  drain_frame d h = rw h

data Outcome (b : Bytes) (limit : ℕ) : Type 0 where
  waits : decode_frame b limit ≡ value none → Outcome b limit
  fails : (e : Error) → decode_frame b limit ≡ error e → Outcome b limit
  yields : (d : DecodedFrame) → decode_frame b limit ≡ value (some d) → Outcome b limit

outcome : (b : Bytes) (limit : ℕ) → Outcome b limit
outcome b limit = go (decode_frame b limit) refl
  where
    go : (r : Result (Option DecodedFrame)) → decode_frame b limit ≡ r → Outcome b limit
    go (error e) h = fails e h
    go (value none) h = waits h
    go (value (some d)) h = yields d h

-- Fuel above the buffer's length is enough: more makes no difference.
drain_fuel :
    (f g : ℕ) (b : Bytes) (limit : ℕ)
    → length b < f
    → length b < g
    → drain f (reader_of b limit) ≡ drain g (reader_of b limit)
drain_fuel zero g b limit h k = absurd (omega arith)
drain_fuel (suc f) zero b limit h k = absurd (omega arith)
drain_fuel (suc f) (suc g) b limit h k = elim (outcome b limit) [
  | waits e ↦ drain_empty f b limit e ∙ sym (drain_empty g b limit e)
  | fails x e ↦ drain_error f b limit x e ∙ sym (drain_error g b limit x e)
  | yields d e ↦
      let (_, _, less) = decode_frame-append b [] limit d e in
      drain_frame f b limit d e
      ∙ ap (with_frame d.payload)
          (drain_fuel f g (drop d.consumed b) limit (omega arith) (omega arith))
      ∙ sym (drain_frame g b limit d e)
]

-- What the loop leaves behind: a reader that waits for more, with no more in it than before.
record IsLeft (b : Bytes) (limit : ℕ) (d : Drained) : Type 0 where
  same_limit : d.reader.max_bytes ≡ limit
  no_longer : length d.reader.buffer ≤ length b
  waiting : d.failure ≡ none → decode_frame d.reader.buffer limit ≡ value none

IsLeft-drain :
    (f : ℕ) (b : Bytes) (limit : ℕ) → length b < f → IsLeft b limit (drain f (reader_of b limit))
IsLeft-drain zero b limit h = absurd (omega arith)
IsLeft-drain (suc f) b limit h = elim (outcome b limit) [
  | waits e ↦
      rw (drain_empty f b limit e)
        (record { same_limit = refl; no_longer = omega arith; waiting = λ _. e })
  | fails x e ↦
      rw (drain_error f b limit x e)
        (record { same_limit = refl; no_longer = omega arith; waiting = λ n. cc })
  | yields d e ↦
      let (_, _, less) = decode_frame-append b [] limit d e in
      let ih = IsLeft-drain f (drop d.consumed b) limit (omega arith) in
      rw (drain_frame f b limit d e) (record {
        same_limit = ih.same_limit;
        no_longer = omega (arith, ih.no_longer);
        waiting = ih.waiting;
      })
]

-- What an observer of the loop sees: the frames and the error.
abbrev pub seen : Drained → List Bytes × Option Error
seen d = (d.frames, d.failure)

abbrev resumed : ℕ → Bytes → Drained → Drained
resumed h c d = after_chunk (λ r. drain h (feed r c)) d

resumed-with_frame :
    (h : ℕ) (c p : Bytes) (d : Drained)
    → resumed h c (with_frame p d) ≡ with_frame p (resumed h c d)
resumed-with_frame h c p d = go d.failure refl
  where
    go :
        (o : Option Error)
        → d.failure ≡ o
        → resumed h c (with_frame p d) ≡ with_frame p (resumed h c d)
    go none e = ground (arith)
    go (some x) e = ground (arith)

drain_split :
    (f g h : ℕ) (b c : Bytes) (limit : ℕ)
    → length b < f
    → length b + length c < g
    → length b + length c < h
    → seen (drain g (reader_of (b ++ c) limit)) ≡ seen (resumed h c (drain f (reader_of b limit)))
unfolding feed
drain_split zero g h b c limit p q r = absurd (omega arith)
drain_split (suc f) zero h b c limit p q r = absurd (omega arith)
drain_split (suc f) (suc g) h b c limit p q r = elim (outcome b limit) [
  | waits e ↦ rw (drain_empty f b limit e) (waiting_case e)
  | fails x e ↦
      rw (drain_error f b limit x e)
        (ap seen (drain_error g (b ++ c) limit x (decode_frame-append_error b c limit x e)))
  | yields d e ↦
      let (whole, dropped, less) = decode_frame-append b c limit d e in
      let ih =
        drain_split f g h (drop d.consumed b) c limit (omega arith) (omega arith) (omega arith) in
      rw (drain_frame f b limit d e) (
        ap seen (drain_frame g (b ++ c) limit d whole)
        ∙ ap (λ s. seen (with_frame d.payload (drain g (reader_of s limit)))) dropped
        ∙ ap (λ (o : List Bytes × Option Error). (d.payload ∷ o.0, o.1)) ih
        ∙ ap seen (
            sym (resumed-with_frame h c d.payload (drain f (reader_of (drop d.consumed b) limit)))))
]
  where
    total : length (b ++ c) ≡ length b + length c
    total = length-append b c

    waiting_case :
        decode_frame b limit ≡ value none
        → seen (drain (suc g) (reader_of (b ++ c) limit))
          ≡ seen (resumed h c (record { frames = []; reader = reader_of b limit; failure = none }))
    waiting_case e =
        ap seen (drain_fuel (suc g) h (b ++ c) limit (omega (arith, total)) (omega (arith, total)))

after_chunk-eq :
    (more more' : FrameReader → Drained) (d : Drained)
    → (d.failure ≡ none → seen (more d.reader) ≡ seen (more' d.reader))
    → seen (after_chunk more d) ≡ seen (after_chunk more' d)
after_chunk-eq more more' d same = go d.failure refl
  where
    go : (o : Option Error) → d.failure ≡ o → seen (after_chunk more d) ≡ seen (after_chunk more' d)
    go none e =
        subst
          (λ o.
            seen (elim o [ some e ↦ d | none ↦ with_frames d.frames (more d.reader) ])
            ≡ seen (elim o [ some e ↦ d | none ↦ with_frames d.frames (more' d.reader) ]))
          (sym e) (ap (λ (o : List Bytes × Option Error). (d.frames ++ o.0, o.1)) (same e))
    go (some x) e =
        subst
          (λ o.
            seen (elim o [ some e ↦ d | none ↦ with_frames d.frames (more d.reader) ])
            ≡ seen (elim o [ some e ↦ d | none ↦ with_frames d.frames (more' d.reader) ]))
          (sym e) refl

-- Chunks that are not empty: the peer does not close before the last of them.
abbrev pub AreOpen : List Bytes → Type 0
AreOpen [] = Unit
AreOpen (c ∷ cs) = (c ≢ []) × AreOpen cs

pump_split :
    (chunks : List Bytes) (b : Bytes) (limit : ℕ)
    → AreOpen chunks
    → decode_frame b limit ≡ value none
    → seen (pump chunks (reader_of b limit))
      ≡ seen (drain_all (reader_of (b ++ flatten chunks) limit))
unfolding pump feed
pump_split [] b limit open_all e =
    ap seen (sym (drain_empty (length b) b limit e))
    ∙ ap (λ s. seen (drain_all (reader_of s limit))) (sym (append-nil b))
pump_split ([] ∷ cs) b limit (closed, _) e = absurd (closed refl)
pump_split ((x ∷ xs) ∷ cs) b limit (_, open_all) e =
    let whole = b ++ x ∷ xs in
    let later = flatten cs in
    let d = drain_all (reader_of whole limit) in
    let left = IsLeft-drain (suc (length whole)) whole limit (omega arith) in
    let fuel = suc (length whole + length later) in
    let joined = whole ++ later in
    after_chunk-eq (pump cs) (λ r. drain fuel (feed r later)) d
      (λ ended.
        at_limit (pump cs) d.reader left.same_limit
        ∙ pump_split cs d.reader.buffer limit open_all (left.waiting ended)
        ∙ ap seen (
            drain_fuel (suc (length (d.reader.buffer ++ later))) fuel (d.reader.buffer ++ later)
              limit (omega arith)
              (omega (arith, left.no_longer, length-append d.reader.buffer later)))
        ∙ sym (at_limit (λ r. drain fuel (feed r later)) d.reader left.same_limit))
    ∙ sym (
        drain_split (suc (length whole)) (suc (length joined)) fuel whole later limit (omega arith)
          (omega (arith, length-append whole later)) (omega arith))
    ∙ ap (λ s. seen (drain_all (reader_of s limit))) (append_assoc b (x ∷ xs) later)
  where
    at_limit :
        (k : FrameReader → Drained) (r : FrameReader)
        → r.max_bytes ≡ limit
        → seen (k r) ≡ seen (k (reader_of r.buffer limit))
    at_limit k r same = ap (λ n. seen (k (reader_of r.buffer n))) same

-- However the stream is cut into chunks, the frames that come out, and the framing error that ends
-- the connection where there is one, are those of the whole stream at once.
pub pump-flatten :
    (chunks : List Bytes) (limit : ℕ)
    → AreOpen chunks
    → seen (pump chunks (record { buffer = []; max_bytes = limit }))
      ≡ seen (drain_all (record { buffer = flatten chunks; max_bytes = limit }))
pump-flatten chunks limit open_all =
    pump_split chunks [] limit open_all (unfold decode_frame in refl)
