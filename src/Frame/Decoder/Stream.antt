-- ===== src/Frame/Decoder/Stream.antt =====
-- What `FrameDecoder::push` returns on a stream of frames, however it is cut into chunks.
use kanai.Base.{
  ℕ, zero, suc, ◌+◌, ◌≡◌, refl, sym, ap, ◌∙◌, Option, none, some, List, [], ◌∷◌, ◌++◌, arith,
  length, Result, ok, err, append-nil, append_assoc,
}
use kanai.Frame.{FrameError}
use mathlib.Core.Path.{fun_ext}
use kanai.Frame.Decoder.{
  Outcome, and_then, after_take, FrameDecoder, take_frame, take_frames, push_byte, push_bytes, push,
}

-- Frames of an earlier chunk, in front of those of a later one.
abbrev pub prepend : List (List ℕ) → Outcome → Outcome
prepend frames (d, ok more) = (d, ok (frames ++ more))
prepend frames (d, err e) = (d, err e)

and_then_assoc :
    (o : Outcome) (f g : FrameDecoder → List (List ℕ) → Outcome)
    → and_then (and_then o f) g ≡ and_then o (λ d frames. and_then (f d frames) g)
and_then_assoc (d, ok frames) f g = refl
and_then_assoc (d, err e) f g = refl

pub push_bytes-append :
    (xs ys : List ℕ) (d : FrameDecoder) (frames : List (List ℕ))
    → push_bytes d (xs ++ ys) frames
      ≡ and_then (push_bytes d xs frames) (λ d' frames'. push_bytes d' ys frames')
unfolding push_bytes
push_bytes-append [] ys d frames = refl
push_bytes-append (x ∷ xs) ys d frames =
    ap (and_then (push_byte d x frames))
      (fun_ext λ d'. fun_ext λ frames'. push_bytes-append xs ys d' frames')
    ∙ sym (and_then_assoc (push_byte d x frames) _ _)

after_take-prepend :
    (frames more : List (List ℕ)) (next : FrameDecoder → List (List ℕ) → Outcome)
    → ((d : FrameDecoder) (more' : List (List ℕ))
        → next d (frames ++ more') ≡ prepend frames (next d more'))
    → (t : FrameDecoder × Result FrameError (Option (List ℕ)))
    → after_take t (frames ++ more) next ≡ prepend frames (after_take t more next)
after_take-prepend frames more next h (d, err e) = refl
after_take-prepend frames more next h (d, ok none) = refl
after_take-prepend frames more next h (d, ok (some payload)) =
    ap (next d) (append_assoc frames more (payload ∷ [])) ∙ h d (more ++ (payload ∷ []))

take_frames-prepend :
    (fuel : ℕ) (d : FrameDecoder) (frames more : List (List ℕ))
    → take_frames fuel d (frames ++ more) ≡ prepend frames (take_frames fuel d more)
unfolding take_frames
take_frames-prepend zero d frames more = refl
take_frames-prepend (suc fuel) d frames more =
    after_take-prepend frames more (λ d' frames'. take_frames fuel d' frames')
      (λ d' more'. take_frames-prepend fuel d' frames more') (take_frame d)

push_byte-prepend :
    (d : FrameDecoder) (x : ℕ) (frames more : List (List ℕ))
    → push_byte d x (frames ++ more) ≡ prepend frames (push_byte d x more)
unfolding push_byte
push_byte-prepend d x frames more = ground (
  arith,
  take_frames-prepend (length d.buffer + 2) (record d { buffer = d.buffer ++ (x ∷ []) }) frames
      more,
)

and_then-prepend :
    (frames : List (List ℕ)) (f : FrameDecoder → List (List ℕ) → Outcome)
    → ((d : FrameDecoder) (more : List (List ℕ)) → f d (frames ++ more) ≡ prepend frames (f d more))
    → (o : Outcome) → and_then (prepend frames o) f ≡ prepend frames (and_then o f)
and_then-prepend frames f h (d, ok more) = h d more
and_then-prepend frames f h (d, err e) = refl

push_bytes-prepend :
    (xs : List ℕ) (d : FrameDecoder) (frames more : List (List ℕ))
    → push_bytes d xs (frames ++ more) ≡ prepend frames (push_bytes d xs more)
unfolding push_bytes
push_bytes-prepend [] d frames more = refl
push_bytes-prepend (x ∷ xs) d frames more =
    ap (λ o. and_then o (λ d' frames'. push_bytes d' xs frames'))
      (push_byte-prepend d x frames more)
    ∙ and_then-prepend frames (λ d' frames'. push_bytes d' xs frames')
        (λ d' more'. push_bytes-prepend xs d' frames more') (push_byte d x more)

pub push-append :
    (d : FrameDecoder) (xs ys : List ℕ)
    → push d (xs ++ ys) ≡ and_then (push d xs) (λ d' frames. prepend frames (push d' ys))
unfolding push
push-append d xs ys =
    push_bytes-append xs ys d []
    ∙ ap (and_then (push_bytes d xs [])) (fun_ext λ d'. fun_ext λ frames. later d' frames)
  where
    later :
        (d' : FrameDecoder) (frames : List (List ℕ))
        → push_bytes d' ys frames ≡ prepend frames (push_bytes d' ys [])
    later d' frames =
        ap (push_bytes d' ys) (sym (append-nil frames)) ∙ push_bytes-prepend ys d' frames []

-- The chunks of a stream, one call of `push` for each; the frames of all calls.
unfoldable pub feed : FrameDecoder → List (List ℕ) → Outcome
feed d [] = (d, ok [])
feed d (chunk ∷ chunks) = and_then (push d chunk) λ d' frames. prepend frames (feed d' chunks)

abbrev pub joined : List (List ℕ) → List ℕ
joined [] = []
joined (chunk ∷ chunks) = chunk ++ joined chunks

-- The frames of several calls are those of one call on the joined chunks (behind an error, the ones
-- of the calls before it are left out on the left side).
pub feed-joined :
    (d : FrameDecoder) (chunks : List (List ℕ)) → feed d chunks ≡ push d (joined chunks)
unfolding feed push push_bytes
feed-joined d [] = refl
feed-joined d (chunk ∷ chunks) =
    ap (and_then (push d chunk))
      (fun_ext λ d'. fun_ext λ frames. ap (prepend frames) (feed-joined d' chunks))
    ∙ sym (push-append d chunk (joined chunks))
