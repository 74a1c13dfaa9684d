-- ===== src/Csd/Protocol/Examples.antt =====
-- The theorem on internal/csd/protocol/codec.go at a short message.
use capper.Prelude.{
  ℕ, List, [], ◌∷◌, ◌++◌, Option, none, some, ◌≡◌, refl, length, leb, false, if◌then◌else◌, arith,
}
use capper.Csd.Protocol.{max_frame, frame_too_large, write_frame, read_frame, frame, failed}
use capper.Csd.Protocol.RoundTrip.{read_frame-write_frame}

abbrev text : ℕ → List ℕ
text n = 123 ∷ n ∷ 125 ∷ []

abbrev marshal : ℕ → Option (List ℕ)
marshal n = some (text n)

abbrev next_frame : List ℕ
next_frame = 7 ∷ 0 ∷ []

read_frame-write_frame_example :
    ((write_frame marshal false false 3 50).1 ≡ none)
    × (read_frame ((write_frame marshal false false 3 50).0 ++ next_frame) ≡ (
        if leb (length (text 50)) max_frame
        then frame 3 (text 50) next_frame
        else failed (frame_too_large (length (text 50)))))
read_frame-write_frame_example =
    read_frame-write_frame marshal 3 50 (text 50) next_frame refl (omega arith)
