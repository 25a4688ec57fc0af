-- ===== src/Ipc/Frame/Decode.antt =====
-- What the decoder makes of encoded frames, whole, cut short and followed by more.
use contextsnap.Base.{
  Bytes, arith, codes, if◌then◌else◌, length, ltb, some, ℕ, ◌%◌, ◌*◌, ◌++◌, ◌+◌, ◌/◌, ◌<◌, ◌^◌, ◌≡◌,
  ◌≤◌, length-append, subst, sym, take-length-append, ◌∙◌, [], ap, drop, length-take, none, refl,
  suc, take, zero, ◌∷◌, length-drop,
}
use contextsnap.Errors.{error, protocol, value, Error}
use contextsnap.Ipc.Frame.{
  decode_frame, encode_frame, length_prefix, prefix_bytes, DecodedFrame, frame_of,
}

prefix_value :
    (n : ℕ)
    → n < 2 ^ 32
    → n % 256 + n / 256 % 256 * 256 + n / 65536 % 256 * 65536 + n / 16777216 % 256 * 16777216 ≡ n
prefix_value n h = omega arith

-- A payload within the limit is encoded, and its frame is four bytes longer.
pub encode_frame-fits :
    (payload : Bytes) (limit : ℕ)
    → length payload ≤ limit
    → limit < 2 ^ 32
    → encode_frame payload limit ≡ value (length_prefix (length payload) ++ payload)
unfolding encode_frame
encode_frame-fits payload limit h k =
    encoded (length payload) h (small (length payload) (omega arith))
  where
    small : (n : ℕ) → n < 2 ^ 32 → n % 2 ^ 32 ≡ n
    small n p = omega arith

    encoded :
        (n : ℕ)
        → n ≤ limit
        → n % 2 ^ 32 ≡ n
        → (if ltb limit n
            then error
                (protocol (codes "payload exceeds the frame limit") (codes "ipc.encode_frame"))
            else value (length_prefix (n % 2 ^ 32) ++ payload))
          ≡ value (length_prefix n ++ payload)
    encoded n p e = rw e (ground arith)

pub fits :
    (payload frame : Bytes) (limit : ℕ)
    → encode_frame payload limit ≡ value frame
    → length payload ≤ limit
unfolding encode_frame
fits payload frame limit h = ground arith

pub frame_bytes :
    (payload frame : Bytes) (limit : ℕ)
    → limit < 2 ^ 32
    → encode_frame payload limit ≡ value frame
    → length_prefix (length payload) ++ payload ≡ frame
frame_bytes payload frame limit k h =
    value_injective (sym (encode_frame-fits payload limit (fits payload frame limit h) k) ∙ h)
  where
    value_injective : {a b : Bytes} → value a ≡ value b → a ≡ b
    value_injective e = cc

decode_prefixed :
    (payload rest : Bytes) (limit : ℕ)
    → length payload ≤ limit
    → limit < 2 ^ 32
    → decode_frame ((length_prefix (length payload) ++ payload) ++ rest) limit
      ≡ value (some (record { payload = payload; consumed = prefix_bytes + length payload }))
unfolding decode_frame frame_of
decode_prefixed payload rest limit h k =
    rw (prefix_value (length payload) (omega arith))
      (rw (take-length-append payload rest) (ground (arith, length-append payload rest)))

-- Decoding what was encoded gives the payload back, whatever bytes follow the frame.
pub decode_frame-encode_frame :
    (payload rest frame : Bytes) (limit : ℕ)
    → limit < 2 ^ 32
    → encode_frame payload limit ≡ value frame
    → decode_frame (frame ++ rest) limit
      ≡ value (some (record { payload = payload; consumed = prefix_bytes + length payload }))
decode_frame-encode_frame payload rest frame limit k h =
    subst
      (λ f.
        decode_frame (f ++ rest) limit
        ≡ value (some (record { payload = payload; consumed = prefix_bytes + length payload })))
      (frame_bytes payload frame limit k h)
      (decode_prefixed payload rest limit (fits payload frame limit h) k)

-- A frame that has not arrived whole is no error: the decoder asks for more.
pub decode_frame-take :
    (payload : Bytes) (limit n : ℕ)
    → length payload ≤ limit
    → limit < 2 ^ 32
    → n < prefix_bytes + length payload
    → decode_frame (take n (length_prefix (length payload) ++ payload)) limit ≡ value none
unfolding decode_frame frame_of
decode_frame-take payload limit zero h k lt = refl
decode_frame-take payload limit (suc zero) h k lt = refl
decode_frame-take payload limit (suc (suc zero)) h k lt = refl
decode_frame-take payload limit (suc (suc (suc zero))) h k lt = refl
decode_frame-take payload limit (suc (suc (suc (suc n)))) h k lt =
    rw (prefix_value (length payload) (omega arith)) (ground (arith, length-take n payload))

drop_append : (n : ℕ) (s t : Bytes) → n ≤ length s → drop n (s ++ t) ≡ drop n s ++ t
drop_append zero s t h = refl
drop_append (suc n) [] t h = absurd (omega arith)
drop_append (suc n) (x ∷ s) t h = drop_append n s t (omega arith)

take_append : (n : ℕ) (s t : Bytes) → n ≤ length s → take n (s ++ t) ≡ take n s
take_append zero s t h = refl
take_append (suc n) [] t h = absurd (omega arith)
take_append (suc n) (x ∷ s) t h = ap (λ l. x ∷ l) (take_append n s t (omega arith))

abbrev frame_at : ℕ → Bytes → DecodedFrame
frame_at n rest = record { payload = take n rest; consumed = suc (suc (suc (suc n))) }

frame_parts :
    (n : ℕ) (rest : Bytes) (limit : ℕ) (d : DecodedFrame)
    → frame_of n rest limit ≡ value (some d)
    → (n ≤ limit) × (n ≤ length rest) × (d ≡ frame_at n rest)
unfolding frame_of
frame_parts n rest limit d h = ground (arith, plus_four n)
  where
    plus_four : (n : ℕ) → prefix_bytes + n ≡ suc (suc (suc (suc n)))
    plus_four n = omega arith

frame_whole :
    (n : ℕ) (rest : Bytes) (limit : ℕ)
    → n ≤ limit
    → n ≤ length rest
    → frame_of n rest limit ≡ value (some (frame_at n rest))
unfolding frame_of
frame_whole n rest limit h k = ground arith

appended :
    (b0 b1 b2 b3 n : ℕ) (rest more : Bytes) (limit : ℕ)
    → b0 + b1 * 256 + b2 * 65536 + b3 * 16777216 ≡ n
    → n ≤ limit
    → n ≤ length rest
    → (decode_frame (b0 ∷ b1 ∷ b2 ∷ b3 ∷ (rest ++ more)) limit ≡ value (some (frame_at n rest)))
      × (drop n (rest ++ more) ≡ drop n rest ++ more)
      × (length (drop n rest) < suc (suc (suc (suc (length rest)))))
unfolding decode_frame
appended b0 b1 b2 b3 n rest more limit e h k = (
  rw e (
      frame_whole n (rest ++ more) limit h (omega (arith, length-append rest more))
      ∙ ap (λ p. value (some (record { payload = p; consumed = suc (suc (suc (suc n))) })))
          (take_append n rest more k)),
  drop_append n rest more k,
  omega (arith, length-drop n rest),
)

-- What a frame at the front decodes to does not change when more bytes arrive behind it.
pub decode_frame-append :
    (buffer more : Bytes) (limit : ℕ) (d : DecodedFrame)
    → decode_frame buffer limit ≡ value (some d)
    → (decode_frame (buffer ++ more) limit ≡ value (some d))
      × (drop d.consumed (buffer ++ more) ≡ drop d.consumed buffer ++ more)
      × (length (drop d.consumed buffer) < length buffer)
unfolding decode_frame
decode_frame-append (b0 ∷ b1 ∷ b2 ∷ b3 ∷ rest) more limit d h =
    let n = b0 + b1 * 256 + b2 * 65536 + b3 * 16777216 in
    let (fits_limit, present, same) = frame_parts n rest limit d h in
    subst
      (λ f.
        (decode_frame (b0 ∷ b1 ∷ b2 ∷ b3 ∷ (rest ++ more)) limit ≡ value (some f))
        × (drop f.consumed (b0 ∷ b1 ∷ b2 ∷ b3 ∷ (rest ++ more))
            ≡ drop f.consumed (b0 ∷ b1 ∷ b2 ∷ b3 ∷ rest) ++ more)
        × (length (drop f.consumed (b0 ∷ b1 ∷ b2 ∷ b3 ∷ rest))
            < suc (suc (suc (suc (length rest))))))
      (sym same) (appended b0 b1 b2 b3 n rest more limit refl fits_limit present)
decode_frame-append _ more limit d h = cc

pub decode_frame-append_error :
    (buffer more : Bytes) (limit : ℕ) (e : Error)
    → decode_frame buffer limit ≡ error e
    → decode_frame (buffer ++ more) limit ≡ error e
unfolding decode_frame frame_of
decode_frame-append_error (b0 ∷ b1 ∷ b2 ∷ b3 ∷ rest) more limit e h = ground arith
decode_frame-append_error [] more limit e h = cc
decode_frame-append_error (b0 ∷ []) more limit e h = cc
decode_frame-append_error (b0 ∷ b1 ∷ []) more limit e h = cc
decode_frame-append_error (b0 ∷ b1 ∷ b2 ∷ []) more limit e h = cc
