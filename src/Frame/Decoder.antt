-- ===== src/Frame/Decoder.antt =====
-- The incremental `FrameDecoder` of frame.rs.
pub mod Stream
pub mod Frames
pub mod Bounds
use kanai.Base.{
  ℕ, zero, suc, ◌+◌, Option, some, none, List, [], ◌∷◌, ◌++◌, ltb, if◌then◌else◌, length, take,
  drop, Result, ok, err, ◌>>=◌, checked_add,
}
use kanai.Frame.{
  FrameError, buffer_overflow, length_overflow, incomplete_frame, frame_header_bytes, new,
  parse_payload_len,
}

pub record FrameDecoder : Type 0 where
  pub max_frame_bytes : ℕ
  pub buffer : List ℕ

pub new_decoder : ℕ → Result FrameError FrameDecoder
new_decoder max_frame_bytes = do
  codec ← new max_frame_bytes
  ok (record { max_frame_bytes = codec.max_frame_bytes; buffer = [] })

-- The part of `take_frame` behind a header that is well formed.
split_frame : FrameDecoder → ℕ → FrameDecoder × Result FrameError (Option (List ℕ))
split_frame self payload_len = elim (checked_add frame_header_bytes payload_len) [
  | none ↦ (self, err length_overflow)
  | some total_len ↦ if ltb (length self.buffer) total_len then (self, ok none) else (
    record self { buffer = drop total_len self.buffer },
    ok (some (drop frame_header_bytes (take total_len self.buffer))),
  )
]

pub take_frame : FrameDecoder → FrameDecoder × Result FrameError (Option (List ℕ))
unfolding split_frame
take_frame self =
    if ltb (length self.buffer) frame_header_bytes
    then (self, ok none)
    else (elim (parse_payload_len self.buffer self.max_frame_bytes) [
      | err e ↦ (self, err e)
      | ok payload_len ↦ split_frame self payload_len
    ])

abbrev pub Outcome : Type 0
Outcome = FrameDecoder × Result FrameError (List (List ℕ))

-- `?` where the decoder is kept on an error.
abbrev pub and_then : Outcome → (FrameDecoder → List (List ℕ) → Outcome) → Outcome
and_then (d, ok frames) f = f d frames
and_then (d, err e) f = (d, err e)

-- The body of the loop over `take_frame`.
abbrev pub after_take :
    FrameDecoder × Result FrameError (Option (List ℕ))
    → List (List ℕ)
    → (FrameDecoder → List (List ℕ) → Outcome)
    → Outcome
after_take (self, err e) frames next = (self, err e)
after_take (self, ok none) frames next = (self, ok frames)
after_take (self, ok (some payload)) frames next = next self (frames ++ (payload ∷ []))

-- `while let Some(payload) = self.take_frame()? { frames.push(payload); }` on fuel: a frame takes
-- nine bytes of the buffer at least, so its length is fuel enough.
pub take_frames : ℕ → FrameDecoder → List (List ℕ) → Outcome
take_frames zero self frames = (self, ok frames)
take_frames (suc fuel) self frames =
    after_take (take_frame self) frames λ self' frames'. take_frames fuel self' frames'

-- One round of the loop of `push`.
pub push_byte : FrameDecoder → ℕ → List (List ℕ) → Outcome
push_byte self byte frames = elim (checked_add frame_header_bytes self.max_frame_bytes) [
  | none ↦ (self, err buffer_overflow)
  | some max_buffer_len ↦
      if ltb (length self.buffer) max_buffer_len
      then take_frames (length self.buffer + 2)
          (record self { buffer = self.buffer ++ (byte ∷ []) }) frames
      else (record self { buffer = [] }, err buffer_overflow)
]

pub push_bytes : FrameDecoder → List ℕ → List (List ℕ) → Outcome
push_bytes self [] frames = (self, ok frames)
push_bytes self (byte ∷ bytes) frames =
    and_then (push_byte self byte frames) λ self' frames'. push_bytes self' bytes frames'

pub push : FrameDecoder → List ℕ → Outcome
push self bytes = push_bytes self bytes []

pub finish : FrameDecoder → Result FrameError (Unit {0})
finish self = elim self.buffer [ [] ↦ ok tt | b ∷ bs ↦ err incomplete_frame ]

pub reset : FrameDecoder → FrameDecoder
reset self = record self { buffer = [] }
