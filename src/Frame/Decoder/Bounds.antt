-- ===== src/Frame/Decoder/Bounds.antt =====
-- The buffer and the loop of `FrameDecoder` in frame.rs, on any bytes.
use kanai.Base.{
  ℕ, zero, suc, ◌+◌, ◌^◌, ◌≤◌, ◌<◌, ◌≡◌, ◌≢◌, refl, subst, inl, inr, none, some, List, [], ◌∷◌,
  ◌++◌, arith, length, take, drop, Result-cases, ok, err, length-append, length-drop, lt_or_ge,
}
use kanai.Frame.{FrameError, buffer_overflow, parse_payload_len, u32_max}
use kanai.Frame.RoundTrip.{parse_payload_len_lem}
use kanai.Frame.Decoder.{
  FrameDecoder, Outcome, and_then, split_frame, take_frame, take_frames, push_byte, push_bytes,
  push,
}

-- No whole frame and no bad header is in the buffer.
abbrev pub IsWaiting : FrameDecoder → Type 0
IsWaiting d = take_frame d ≡ (d, ok none)

-- What `take_frame` does: it waits, refuses a header, or takes a frame of nine bytes at least.
data Takes (d : FrameDecoder) : Type 0 where
  waits : take_frame d ≡ (d, ok none) → Takes d
  refuses : (e : FrameError) → take_frame d ≡ (d, err e) → e ≢ buffer_overflow → Takes d
  takes :
      (payload : List ℕ) (d' : FrameDecoder)
      → take_frame d ≡ (d', ok (some payload))
      → d'.max_frame_bytes ≡ d.max_frame_bytes
      → length d'.buffer + 9 ≤ length d.buffer
      → Takes d

parse_payload_len-ne-overflow :
    (input : List ℕ) (m : ℕ) (e : FrameError)
    → parse_payload_len input m ≡ err e
    → e ≢ buffer_overflow
unfolding parse_payload_len
parse_payload_len-ne-overflow input m e h = ground arith

split_frame-Takes : (d : FrameDecoder) (n : ℕ) → 0 < n → take_frame d ≡ split_frame d n → Takes d
unfolding split_frame
split_frame-Takes d n pos e = elim (lt_or_ge (8 + n) (2 ^ 64)) [
  | inr wide ↦ refuses FrameError.length_overflow (ground arith) (λ h. cc)
  | inl small ↦ elim (lt_or_ge (length d.buffer) (8 + n)) [
    | inl short ↦ waits (ground arith)
    | inr long ↦
        takes (drop 8 (take (8 + n) d.buffer)) (record d { buffer = drop (8 + n) d.buffer })
          (ground arith) refl (omega (arith, length-drop (8 + n) d.buffer))
  ]
]

take_frame-Takes : (d : FrameDecoder) → Takes d
unfolding take_frame
take_frame-Takes d = elim (lt_or_ge (length d.buffer) 8) [
  | inl short ↦ waits (ground arith)
  | inr long ↦ elim (Result-cases (parse_payload_len d.buffer d.max_frame_bytes)) [
    | inr (x, e) ↦ refuses x (ground (arith, e)) (parse_payload_len-ne-overflow _ _ x e)
    | inl (n, e) ↦ split_frame-Takes d n (parse_payload_len_lem _ _ n e).2 (ground (arith, e))
  ]
]

-- How a call ends that starts at a decoder with the limit `m` and at most `k` bytes.
abbrev pub Ends : ℕ → ℕ → Outcome → Type 0
Ends m k (d, ok frames) = (d.max_frame_bytes ≡ m) × (length d.buffer ≤ k) × IsWaiting d
Ends m k (d, err e) = (d.max_frame_bytes ≡ m) × (length d.buffer ≤ k) × (e ≢ buffer_overflow)

Ends-mono : (m k l : ℕ) (o : Outcome) → k ≤ l → Ends m k o → Ends m l o
Ends-mono m k l (d, ok frames) h (a, b, c) = (a, omega arith, c)
Ends-mono m k l (d, err e) h (a, b, c) = (a, omega arith, c)

take_frames-Ends :
    (fuel : ℕ) (d : FrameDecoder) (frames : List (List ℕ))
    → length d.buffer < fuel
    → Ends d.max_frame_bytes (length d.buffer) (take_frames fuel d frames)
unfolding take_frames
take_frames-Ends zero d frames h = absurd (omega arith)
take_frames-Ends (suc fuel) d frames h = elim (take_frame-Takes d) [
  | waits e ↦ rw (e, take_frames) (refl, omega arith, e)
  | refuses x e n ↦ rw (e, take_frames) (refl, omega arith, n)
  | takes payload d' e m l ↦
      rw (e, take_frames)
        (Ends-mono d.max_frame_bytes (length d'.buffer) (length d.buffer) _ (omega arith) (
          subst (λ k. Ends k (length d'.buffer) (take_frames fuel d' (frames ++ (payload ∷ [])))) m
            (take_frames-Ends fuel d' (frames ++ (payload ∷ [])) (omega arith))))
]

abbrev IsBounded : FrameDecoder → Type 0
IsBounded d = (d.max_frame_bytes ≤ u32_max) × IsWaiting d

waiting_room : (d : FrameDecoder) → IsBounded d → length d.buffer < 8 + d.max_frame_bytes
unfolding take_frame split_frame
waiting_room d (fits, w) = elim (lt_or_ge (length d.buffer) 8) [
  | inl short ↦ omega arith
  | inr long ↦ elim (Result-cases (parse_payload_len d.buffer d.max_frame_bytes)) [
    | inr (x, e) ↦ ground (arith, e)
    | inl (n, e) ↦ ground (arith, e, parse_payload_len_lem _ _ n e)
  ]
]

push_byte-Ends :
    (d : FrameDecoder) (x : ℕ) (frames : List (List ℕ))
    → IsBounded d
    → Ends d.max_frame_bytes (8 + d.max_frame_bytes) (push_byte d x frames)
unfolding push_byte
push_byte-Ends d x frames b =
    let room = waiting_room d b in
    let d' : FrameDecoder = record d { buffer = d.buffer ++ (x ∷ []) } in
    let size = length-append d.buffer (x ∷ []) in
    ground (
      arith,
      size,
      room,
      Ends-mono d.max_frame_bytes (length d'.buffer) (8 + d.max_frame_bytes)
          (take_frames (length d.buffer + 2) d' frames) (omega (arith, size))
          (take_frames-Ends (length d.buffer + 2) d' frames (omega (arith, size))),
    )

and_then-Ends :
    (m : ℕ) (next : FrameDecoder → List (List ℕ) → Outcome)
    → m ≤ u32_max
    → ((d : FrameDecoder) (frames : List (List ℕ))
        → IsBounded d
        → Ends d.max_frame_bytes (8 + d.max_frame_bytes) (next d frames))
    → (o : Outcome) → Ends m (8 + m) o
    → Ends m (8 + m) (and_then o next)
and_then-Ends m next fits h (d, ok frames) (a, b, c) =
    subst (λ k. Ends k (8 + k) (next d frames)) a (h d frames (omega arith, c))
and_then-Ends m next fits h (d, err e) ends = ends

push_bytes-Ends :
    (bytes : List ℕ) (d : FrameDecoder) (frames : List (List ℕ))
    → IsBounded d
    → Ends d.max_frame_bytes (8 + d.max_frame_bytes) (push_bytes d bytes frames)
unfolding push_bytes
push_bytes-Ends [] d frames b = (refl, omega (arith, waiting_room d b), b.1)
push_bytes-Ends (x ∷ bytes) d frames b =
    and_then-Ends d.max_frame_bytes (λ d' frames'. push_bytes d' bytes frames') b.0
      (λ d' frames' b'. push_bytes-Ends bytes d' frames' b') (push_byte d x frames)
      (push_byte-Ends d x frames b)

-- From a decoder that waits for more bytes, whatever bytes are pushed: the limit stays, the
-- buffer never holds more than a header and one payload of the limit, a success leaves a decoder
-- that waits for more (so the loop over `take_frame` was not cut short by its fuel), and the
-- error is never `buffer_overflow`.
pub push-Ends :
    (d : FrameDecoder) (bytes : List ℕ)
    → d.max_frame_bytes ≤ u32_max
    → IsWaiting d
    → Ends d.max_frame_bytes (8 + d.max_frame_bytes) (push d bytes)
unfolding push
push-Ends d bytes fits w = push_bytes-Ends bytes d [] (fits, w)
