-- ===== src/Csd/Protocol.antt =====
-- The frames of the shared disk's protocol: internal/csd/protocol/codec.go. Bytes are numbers; a message is
-- written to a stream of bytes and read from one, where the stream may end early.
pub mod RoundTrip
pub mod Examples
use capper.Prelude.{
  ℕ, ◌+◌, ◌*◌, ◌/◌, ◌%◌, ◌≤◌, Bool, true, false, List, [], ◌∷◌, ◌++◌, Option, none, some, length,
  take, drop, leb, ltb, if◌then◌else◌,
}

pub data Error : Type 0 where
  marshal_failed write_failed short_header short_payload : Error
  frame_too_large : ℕ → Error

abbrev pub max_frame : ℕ
max_frame = 64 * 1024 * 1024

-- The type and the length of the payload, as a big-endian uint32.
pub header : ℕ → ℕ → List ℕ
header type length =
    let n = length % 4294967296 in
    type ∷ n / 16777216 % 256 ∷ n / 65536 % 256 ∷ n / 256 % 256 ∷ n % 256 ∷ []

-- What has reached the stream, and the error if there is one. The marshaller is a parameter, and so is
-- which of the two writes fails.
pub write_frame :
    {Msg : Type 0} → (Msg → Option (List ℕ)) → Bool → Bool → ℕ → Msg → List ℕ × Option Error
write_frame marshal header_fails payload_fails type msg = elim (marshal msg) [
  | none ↦ ([], some marshal_failed)
  | some payload ↦
      if header_fails
      then ([], some write_failed)
      else if payload_fails
      then (header type (length payload), some write_failed)
      else (header type (length payload) ++ payload, none)
]

pub data Frame : Type 0 where
  frame : ℕ → List ℕ → List ℕ → Frame
  failed : Error → Frame

-- io.ReadFull: all the bytes asked for, or an error.
pub payload_of : ℕ → ℕ → List ℕ → Frame
payload_of type n stream =
    if ltb max_frame n
    then failed (frame_too_large n)
    else if leb n (length stream)
    then frame type (take n stream) (drop n stream)
    else failed short_payload

-- The type, the payload, and what is left of the stream.
pub read_frame : List ℕ → Frame
unfolding payload_of
read_frame (t ∷ a ∷ b ∷ c ∷ d ∷ stream) =
    payload_of t (a * 16777216 + b * 65536 + c * 256 + d) stream
read_frame _ = failed short_header
