-- ===== src/Frame/Examples.antt =====
-- Runs of the framing layer, and its theorems at concrete inputs.
use kanai.Base.{ℕ, ◌≡◌, refl, List, [], ◌∷◌, ◌++◌, arith, length, drop, ok, err, list_eq}
use kanai.Frame.{
  FrameCodec, validate_payload_length, parse_payload_len, encode, decode, trailing_bytes,
}
use kanai.Frame.RoundTrip.{decode-encode, encode-decode}
use kanai.Frame.Decoder.{push}
use kanai.Frame.Decoder.Stream.{feed}
use kanai.Frame.Decoder.Frames.{at, push-chunks, take_frame_short}
use kanai.Frame.Decoder.Bounds.{Ends, push-Ends}

abbrev codec : FrameCodec
codec = record { max_frame_bytes = 16 }

abbrev hi_wire : List ℕ
hi_wire = b'K' ∷ b'B' ∷ b'F' ∷ b'1' ∷ 0 ∷ 0 ∷ 0 ∷ 2 ∷ b'h' ∷ b'i' ∷ []

abbrev hi : List ℕ
hi = b'h' ∷ b'i' ∷ []

encode-hi : encode codec hi ≡ ok hi_wire
unfolding encode validate_payload_length
encode-hi = refl

decode-hi : decode codec hi_wire ≡ ok (record { payload = hi; consumed = 10 })
unfolding decode parse_payload_len list_eq
decode-hi = refl

decode_trailing : decode codec (hi_wire ++ (0 ∷ [])) ≡ err trailing_bytes
unfolding decode parse_payload_len list_eq
decode_trailing = refl

decode-encode_example : decode codec hi_wire ≡ ok (record { payload = hi; consumed = 10 })
decode-encode_example = decode-encode codec hi hi_wire encode-hi

encode-decode_example : (encode codec hi ≡ ok hi_wire) × (10 ≡ length hi_wire)
encode-decode_example =
    encode-decode codec hi_wire (record { payload = hi; consumed = 10 }) (omega arith) decode-hi

push-chunks_example :
    feed (at 16 []) ((b'K' ∷ b'B' ∷ []) ∷ (drop 2 hi_wire ++ (b'K' ∷ [])) ∷ drop 1 hi_wire ∷ [])
    ≡ (at 16 [], ok (hi ∷ hi ∷ []))
push-chunks_example =
    push-chunks 16 (hi ∷ hi ∷ [])
      ((b'K' ∷ b'B' ∷ []) ∷ (drop 2 hi_wire ++ (b'K' ∷ [])) ∷ drop 1 hi_wire ∷ []) (omega arith)
      (omega arith) refl

push-Ends_example : Ends 16 24 (push (at 16 []) hi_wire)
push-Ends_example =
    push-Ends (at 16 []) hi_wire (omega arith) (take_frame_short (at 16 []) (omega arith))
