-- ===== src/Frame/Decoder/Frames.antt =====
-- `FrameDecoder::push` on a stream that consists of whole frames.
use kanai.Base.{
  ℕ, suc, ◌+◌, ◌≤◌, ◌<◌, ◌≡◌, refl, ap, ◌∙◌, none, some, List, [], ◌∷◌, ◌++◌, arith, length, drop,
  All, ok, length-append, take_all, drop_all, lt_or_ge, append-nil, append_assoc, inl, inr,
}
use kanai.Frame.{frame_magic, to_be_bytes, parse_payload_len, u32_max}
use kanai.Frame.RoundTrip.{parse_header}
use kanai.Frame.Decoder.{
  FrameDecoder, and_then, take_frame, take_frames, push_byte, push_bytes, push,
}
use kanai.Frame.Decoder.Stream.{push_bytes-append, feed, joined, feed-joined}

-- A payload's wire form.
abbrev pub wire : List ℕ → List ℕ
wire payload = frame_magic ++ (to_be_bytes (length payload) ++ payload)

abbrev pub wires : List (List ℕ) → List ℕ
wires [] = []
wires (p ∷ ps) = wire p ++ wires ps

abbrev pub Fits : ℕ → List ℕ → Type 0
Fits max_frame_bytes payload =
    (0 < length payload) × (length payload ≤ max_frame_bytes) × (length payload ≤ u32_max)

pub take_frame_short : (d : FrameDecoder) → length d.buffer < 8 → take_frame d ≡ (d, ok none)
unfolding take_frame
take_frame_short d h = ground arith

-- The header alone decides what `parse_payload_len` says.
parse_prefix :
    (m : ℕ) (pre rest : List ℕ)
    → 8 ≤ length pre
    → parse_payload_len pre m ≡ parse_payload_len (pre ++ rest) m
unfolding parse_payload_len
parse_prefix m (x0 ∷ x1 ∷ x2 ∷ x3 ∷ x4 ∷ x5 ∷ x6 ∷ x7 ∷ pre) rest h = ground arith
parse_prefix m _ rest h = absurd (omega arith)

-- A decoder with these bytes in its buffer.
abbrev pub at : ℕ → List ℕ → FrameDecoder
at m buffer = record { max_frame_bytes = m; buffer = buffer }

module _ (d : FrameDecoder) (n : ℕ) (small : n ≤ u32_max) where
  take_frame_waits :
      parse_payload_len d.buffer d.max_frame_bytes ≡ ok n
      → length d.buffer < 8 + n
      → take_frame d ≡ (d, ok none)
  unfolding take_frame
  take_frame_waits e h = ground arith

  take_frame_done :
      parse_payload_len d.buffer d.max_frame_bytes ≡ ok n
      → length d.buffer ≡ 8 + n
      → take_frame d ≡ (record d { buffer = [] }, ok (some (drop 8 d.buffer)))
  unfolding take_frame
  take_frame_done e h = ground (arith, take_all (8 + n) d.buffer, drop_all (8 + n) d.buffer)

take_frames_done :
    (k : ℕ) (d d' : FrameDecoder) (payload : List ℕ) (frames : List (List ℕ))
    → take_frame d ≡ (d', ok (some payload))
    → take_frame d' ≡ (d', ok none)
    → take_frames (suc (suc k)) d frames ≡ (d', ok (frames ++ (payload ∷ [])))
unfolding take_frames
take_frames_done k d d' payload frames e e' = ground (arith, e, e')

module _ (m : ℕ) (payload : List ℕ) (f : Fits m payload) where
  parse_wire : parse_payload_len (wire payload) m ≡ ok (length payload)
  parse_wire = parse_header (length payload) m payload f.0 f.1 (omega arith)

  take_frame_whole : take_frame (at m (wire payload)) ≡ (at m [], ok (some payload))
  take_frame_whole =
      take_frame_done (at m (wire payload)) (length payload) f.2 parse_wire (omega arith)

  take_frame_prefix :
      (pre rest : List ℕ)
      → pre ++ rest ≡ wire payload
      → 0 < length rest
      → take_frame (at m pre) ≡ (at m pre, ok none)
  take_frame_prefix pre rest e h = elim (lt_or_ge (length pre) 8) [
    | inl short ↦ take_frame_short (at m pre) short
    | inr long ↦
        take_frame_waits (at m pre) (length payload) f.2
          (parse_prefix m pre rest long ∙ ap (λ w. parse_payload_len w m) e ∙ parse_wire)
          (omega (arith, length-append pre rest, ap length e))
  ]

  -- A byte of a frame that is not its last one is kept.
  push_byte_inside :
      (pre : List ℕ) (x y : ℕ) (rest : List ℕ) (frames : List (List ℕ))
      → m ≤ u32_max
      → (pre ++ (x ∷ [])) ++ (y ∷ rest) ≡ wire payload
      → push_byte (at m pre) x frames ≡ (at m (pre ++ (x ∷ [])), ok frames)
  unfolding push_byte take_frames
  push_byte_inside pre x y rest frames fits e = ground (
    arith,
    take_frame_prefix (pre ++ (x ∷ [])) (y ∷ rest) e,
    length-append (pre ++ (x ∷ [])) (y ∷ rest),
    length-append pre (x ∷ []),
    ap length e,
  )

  -- The last byte hands the payload out.
  push_byte_last :
      (pre : List ℕ) (x : ℕ) (frames : List (List ℕ))
      → m ≤ u32_max
      → pre ++ (x ∷ []) ≡ wire payload
      → push_byte (at m pre) x frames ≡ (at m [], ok (frames ++ (payload ∷ [])))
  unfolding push_byte take_frames
  push_byte_last pre x frames fits e =
      let size = length-append pre (x ∷ []) in
      let whole : take_frame (at m (pre ++ (x ∷ []))) ≡ (at m [], ok (some payload)) =
        ap (λ w. take_frame (at m w)) e ∙ take_frame_whole in
      let fuel : length pre + 2 ≡ suc (suc (length pre)) = omega (arith, size, ap length e) in
      ground (
        arith,
        ap length e,
        fuel,
        size,
        take_frames_done (length pre) (at m (pre ++ (x ∷ []))) (at m []) payload frames whole
            (take_frame_short (at m []) (omega arith)),
      )

  -- The rest of a frame, fed to a decoder that holds its beginning.
  push_bytes_frame :
      (rest : List ℕ) (x : ℕ) (pre : List ℕ) (frames : List (List ℕ))
      → m ≤ u32_max
      → pre ++ (x ∷ rest) ≡ wire payload
      → push_bytes (at m pre) (x ∷ rest) frames ≡ (at m [], ok (frames ++ (payload ∷ [])))
  unfolding push_bytes
  push_bytes_frame [] x pre frames fits e = rw (push_byte_last pre x frames fits e)
  push_bytes_frame (y ∷ rest) x pre frames fits e =
      let e' : (pre ++ (x ∷ [])) ++ (y ∷ rest) ≡ wire payload =
        append_assoc pre (x ∷ []) (y ∷ rest) ∙ e in
      rw (push_byte_inside pre x y rest frames fits e')
        (push_bytes_frame rest y (pre ++ (x ∷ [])) frames fits e')

push_bytes-wires :
    (m : ℕ) (payloads frames : List (List ℕ))
    → m ≤ u32_max
    → All (Fits m) payloads
    → push_bytes (at m []) (wires payloads) frames ≡ (at m [], ok (frames ++ payloads))
unfolding push_bytes
push_bytes-wires m [] frames fits f = rw (append-nil frames)
push_bytes-wires m (p ∷ ps) frames fits f =
    push_bytes-append (wire p) (wires ps) (at m []) frames
    ∙ ap (λ o. and_then o (λ d frames'. push_bytes d (wires ps) frames'))
        (push_bytes_frame m p f.0 _ _ [] frames fits refl)
    ∙ push_bytes-wires m ps (frames ++ (p ∷ [])) fits f.1
    ∙ ap (λ all. (at m [], ok all)) (append_assoc frames (p ∷ []) ps)

pub push-wires :
    (m : ℕ) (payloads : List (List ℕ))
    → m ≤ u32_max
    → All (Fits m) payloads
    → push (at m []) (wires payloads) ≡ (at m [], ok payloads)
unfolding push
push-wires m payloads fits f = push_bytes-wires m payloads [] fits f

-- The wire forms of payloads within the decoder's limit, cut into chunks at any places and pushed
-- chunk by chunk: no call fails, the calls together return exactly the payloads, in order, and the
-- buffer is empty at the end.
pub push-chunks :
    (m : ℕ) (payloads : List (List ℕ)) (chunks : List (List ℕ))
    → m ≤ u32_max
    → All (Fits m) payloads
    → joined chunks ≡ wires payloads
    → feed (at m []) chunks ≡ (at m [], ok payloads)
push-chunks m payloads chunks fits f cut =
    feed-joined (at m []) chunks ∙ ap (push (at m [])) cut ∙ push-wires m payloads fits f
