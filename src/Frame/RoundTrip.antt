-- ===== src/Frame/RoundTrip.antt =====
-- `encode` of frame.rs followed by `decode`, and the other way round.
use kanai.Base.{
  ℕ, ◌+◌, ◌%◌, ◌≤◌, ◌<◌, ◌≡◌, ap, List, [], ◌∷◌, ◌++◌, arith, length, take, drop, All, ok, take_all,
  Result-cases, length-drop, inl, inr, list_eq, list_eq_iff, u32_mod, some,
}
use kanai.Frame.{
  FrameCodec, DecodedFrame, IsByte, frame_magic, to_be_bytes, from_be_bytes,
  validate_payload_length, parse_payload_len, encode, decode, u32_max,
}

-- What `validate_payload_length` accepts.
pub validate_payload_length_bounds :
    (size max_frame_bytes : ℕ) (u : Unit {0})
    → validate_payload_length size max_frame_bytes ≡ ok u
    → (0 < size) × (size ≤ max_frame_bytes) × (size ≤ u32_max)
unfolding validate_payload_length
validate_payload_length_bounds size m u h = ground arith

pub validate_payload_length_accepts :
    (size max_frame_bytes : ℕ)
    → 0 < size
    → size ≤ max_frame_bytes
    → size ≤ u32_max
    → validate_payload_length size max_frame_bytes ≡ ok tt
unfolding validate_payload_length
validate_payload_length_accepts size m p q r = ground arith

from_be_bytes-to_be_bytes : (n : ℕ) → n < u32_mod → from_be_bytes (to_be_bytes n) ≡ some n
from_be_bytes-to_be_bytes n h = ap some (omega arith)

-- A well-formed header announces the payload's length.
pub parse_header :
    (n max_frame_bytes : ℕ) (rest : List ℕ)
    → 0 < n
    → n ≤ max_frame_bytes
    → n < u32_mod
    → parse_payload_len (frame_magic ++ (to_be_bytes n ++ rest)) max_frame_bytes ≡ ok n
unfolding parse_payload_len list_eq
parse_header n m rest p q r = ground (arith, from_be_bytes-to_be_bytes n r)

-- What a header that is accepted looks like.
pub parse_payload_len_lem :
    (input : List ℕ) (max_frame_bytes n : ℕ)
    → parse_payload_len input max_frame_bytes ≡ ok n
    → (take 4 input ≡ frame_magic)
      × (from_be_bytes (take 4 (drop 4 input)) ≡ some n)
      × (0 < n)
      × (n ≤ max_frame_bytes)
      × (8 ≤ length input)
unfolding parse_payload_len
parse_payload_len_lem input m n h = ground (arith, list_eq_iff (take 4 input) frame_magic)

module _ (c : FrameCodec) where
  -- The wire form of a payload within the limits.
  encode_lem :
      (payload wire : List ℕ)
      → encode c payload ≡ ok wire
      → (0 < length payload)
        × (length payload ≤ c.max_frame_bytes)
        × (length payload ≤ u32_max)
        × (wire ≡ frame_magic ++ (to_be_bytes (length payload % u32_mod) ++ payload))
  unfolding encode validate_payload_length
  encode_lem payload wire h = ground arith

  decode_frame :
      (payload : List ℕ)
      → 0 < length payload
      → length payload ≤ c.max_frame_bytes
      → length payload ≤ u32_max
      → decode c (frame_magic ++ (to_be_bytes (length payload) ++ payload))
        ≡ ok (record { payload = payload; consumed = 8 + length payload })
  unfolding decode
  decode_frame payload p q r = ground (
    arith,
    parse_header (length payload) c.max_frame_bytes payload p q (omega arith),
    take_all (length payload) payload,
  )

  -- What `encode` wrote, `decode` reads back, whole.
  pub decode-encode :
      (payload wire : List ℕ)
      → encode c payload ≡ ok wire
      → decode c wire ≡ ok (record { payload = payload; consumed = length wire })
  decode-encode payload wire h =
      let (p, q, r, e) = encode_lem payload wire h in
      let small : length payload % u32_mod ≡ length payload = omega arith in
      ground (arith, small, e, decode_frame payload p q r)

to_be_bytes-from_be_bytes :
    (a b c d n : ℕ)
    → IsByte a
    → IsByte b
    → IsByte c
    → IsByte d
    → from_be_bytes (a ∷ b ∷ c ∷ d ∷ []) ≡ some n
    → (n < u32_mod) × (to_be_bytes n ≡ a ∷ b ∷ c ∷ d ∷ [])
to_be_bytes-from_be_bytes a b c d n ha hb hc hd e = ground arith

-- What `decode` has found out about an input that it accepts.
pub decode_lem :
    (c : FrameCodec) (input : List ℕ) (frame : DecodedFrame)
    → decode c input ≡ ok frame
    → (n : ℕ) × (parse_payload_len input c.max_frame_bytes ≡ ok n)
      × (length input ≡ 8 + n)
      × (frame ≡ record { payload = drop 8 input; consumed = 8 + n })
unfolding decode
decode_lem c input frame h = elim (Result-cases (parse_payload_len input c.max_frame_bytes)) [
  | inl (n, e) ↦ (n, e, ground (arith, e), ground (arith, e, take_all (8 + n) input))
  | inr (x, e) ↦ ground (arith, e)
]

header_bytes :
    (input : List ℕ) (n : ℕ)
    → All IsByte input
    → 8 ≤ length input
    → take 4 input ≡ frame_magic
    → from_be_bytes (take 4 (drop 4 input)) ≡ some n
    → (n < u32_mod) × (frame_magic ++ (to_be_bytes n ++ drop 8 input) ≡ input)
header_bytes (x0 ∷ x1 ∷ x2 ∷ x3 ∷ x4 ∷ x5 ∷ x6 ∷ x7 ∷ rest) n b h m e =
    let length_bytes = b.1.1.1.1 in
    let (lt, eq) =
      to_be_bytes-from_be_bytes x4 x5 x6 x7 n length_bytes.0 length_bytes.1.0 length_bytes.1.1.0
        length_bytes.1.1.1.0 e in
    (lt, cc (m, eq))
header_bytes _ n b h m e = absurd (omega arith)

-- A frame that `decode` accepts is what `encode` writes for its payload.
pub encode-decode :
    (c : FrameCodec) (input : List ℕ) (frame : DecodedFrame)
    → All IsByte input
    → decode c input ≡ ok frame
    → (encode c frame.payload ≡ ok input) × (frame.consumed ≡ length input)
unfolding encode
encode-decode c input frame b h =
    let (n, p, l, f) = decode_lem c input frame h in
    let (m, e, pos, fits, len) = parse_payload_len_lem input c.max_frame_bytes n p in
    let (lt, eq) = header_bytes input n b len m e in
    let size : length frame.payload ≡ n =
      omega (arith, ap (λ (g : DecodedFrame). length g.payload) f, length-drop 8 input) in
    let small : length frame.payload % u32_mod ≡ n = omega (arith, size) in
    (
      ground (
        arith,
        f,
        eq,
        small,
        size,
        validate_payload_length_accepts n c.max_frame_bytes pos fits (omega arith),
      ),
      ground (arith, f),
    )
