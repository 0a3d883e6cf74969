-- ===== src/Frame.antt =====
-- crates/kanai-broker/src/frame.rs: the wire format `KBF1 | u32 big-endian length | payload`.
-- A byte is a number below 256 and a byte string is a list of bytes. `usize` has 64 bits.
pub mod Decoder
pub mod RoundTrip
mod Examples
use kanai.Base.{
  ℕ, ◌+◌, ◌*◌, ◌/◌, ◌%◌, ◌^◌, ◌<◌, Bool, not, Option, some, none, List, [], ◌∷◌, ◌++◌, ltb, ◌==◌,
  list_eq, length, take, drop, Result, ok, err, ◌>>=◌, ◌>>◌, fail_if, ok_or, checked_add, u32_mod,
}

pub data FrameError : Type 0 where
  empty_payload : FrameError
  payload_too_large : ℕ → ℕ → FrameError
  invalid_limit : ℕ → FrameError
  invalid_magic zero_length length_overflow : FrameError
  truncated_header truncated_payload trailing_bytes : FrameError
  buffer_overflow incomplete_frame : FrameError
  -- The text of the error is left out.
  io : FrameError

abbrev pub IsByte : ℕ → Type 0
IsByte b = b < 256

abbrev pub default_max_frame_bytes : ℕ
default_max_frame_bytes = 1024 * 1024

abbrev pub frame_magic : List ℕ
frame_magic = b'K' ∷ b'B' ∷ b'F' ∷ b'1' ∷ []

abbrev pub frame_header_bytes : ℕ
frame_header_bytes = 8

-- `u32::MAX`
abbrev pub u32_max : ℕ
u32_max = 4294967295

-- `u32::to_be_bytes`, of a number below 2 ^ 32.
abbrev pub to_be_bytes : ℕ → List ℕ
to_be_bytes n = n / 2 ^ 24 % 256 ∷ n / 2 ^ 16 % 256 ∷ n / 2 ^ 8 % 256 ∷ n % 256 ∷ []

-- `u32::from_be_bytes`; the slice has four bytes, or `try_into` fails.
abbrev pub from_be_bytes : List ℕ → Option ℕ
from_be_bytes (a ∷ b ∷ c ∷ d ∷ []) = some (a * 2 ^ 24 + b * 2 ^ 16 + c * 2 ^ 8 + d)
from_be_bytes _ = none

pub validate_payload_length : ℕ → ℕ → Result FrameError (Unit {0})
validate_payload_length size max_frame_bytes = do
  fail_if (max_frame_bytes == 0) (invalid_limit 0)
  fail_if (size == 0) empty_payload
  fail_if (ltb max_frame_bytes size) (payload_too_large size max_frame_bytes)
  fail_if (ltb u32_max size) length_overflow

pub parse_payload_len : List ℕ → ℕ → Result FrameError ℕ
parse_payload_len input max_frame_bytes = do
  fail_if (ltb (length input) frame_header_bytes) truncated_header
  fail_if (not (list_eq (take 4 input) frame_magic)) invalid_magic
  payload_len ← ok_or (from_be_bytes (take 4 (drop 4 input))) truncated_header
  fail_if (payload_len == 0) zero_length
  fail_if (ltb max_frame_bytes payload_len) (payload_too_large payload_len max_frame_bytes)
  ok payload_len

-- An already validated payload.
pub record Frame : Type 0 where
  pub payload : List ℕ

pub with_limit : List ℕ → ℕ → Result FrameError Frame
with_limit payload max_frame_bytes = do
  validate_payload_length (length payload) max_frame_bytes
  ok (record { payload = payload })

pub record FrameCodec : Type 0 where
  pub max_frame_bytes : ℕ

pub record DecodedFrame : Type 0 where
  pub payload : List ℕ
  pub consumed : ℕ

pub new : ℕ → Result FrameError FrameCodec
new max_frame_bytes = do
  fail_if (max_frame_bytes == 0) (invalid_limit 0)
  fail_if (ltb u32_max max_frame_bytes) length_overflow
  ok (record { max_frame_bytes = max_frame_bytes })

pub encode : FrameCodec → List ℕ → Result FrameError (List ℕ)
encode self payload = do
  validate_payload_length (length payload) self.max_frame_bytes
  ok (frame_magic ++ (to_be_bytes (length payload % u32_mod) ++ payload))

pub decode : FrameCodec → List ℕ → Result FrameError DecodedFrame
decode self input = do
  fail_if (ltb (length input) frame_header_bytes) truncated_header
  payload_len ← parse_payload_len input self.max_frame_bytes
  total_len ← ok_or (checked_add frame_header_bytes payload_len) length_overflow
  fail_if (ltb (length input) total_len) truncated_payload
  fail_if (ltb total_len (length input)) trailing_bytes
  ok (record { payload = drop frame_header_bytes (take total_len input); consumed = total_len })
