-- ===== src/Csd/Protocol/RoundTrip.antt =====
-- Frames are read back as they were written: internal/csd/protocol/codec.go.
use native.Mathlib.Nat.{mod-eq_of_lt}
use capper.Prelude.{
  Bool-cases, inl, inr, le→leb, ℕ, ◌+◌, ◌*◌, ◌/◌, ◌%◌, ◌<◌, ◌≡◌, refl, true, false, List, [], ◌∷◌,
  ◌++◌, Option, none, some, length, length-append, take, drop, leb, ltb, if◌then◌else◌, arith,
}
use capper.Csd.Protocol.{
  frame_too_large, max_frame, header, write_frame, frame, failed, payload_of, read_frame,
}

take-append : {A : Type 0} (xs ys : List A) → take (length xs) (xs ++ ys) ≡ xs
take-append [] ys = refl
take-append (x ∷ xs) ys = rw (take-append xs ys) refl

drop-append : {A : Type 0} (xs ys : List A) → drop (length xs) (xs ++ ys) ≡ ys
drop-append [] ys = refl
drop-append (x ∷ xs) ys = drop-append xs ys

word_lem :
    (n : ℕ)
    → n < 4294967296
    → n / 16777216 % 256 * 16777216 + n / 65536 % 256 * 65536 + n / 256 % 256 * 256 + n % 256 ≡ n
word_lem n h = omega arith

payload_of-append :
    (type : ℕ) (payload rest : List ℕ)
    → payload_of type (length payload) (payload ++ rest) ≡ (
        if leb (length payload) max_frame
        then frame type payload rest
        else failed (frame_too_large (length payload)))
unfolding payload_of
payload_of-append type payload rest = elim (Bool-cases (leb (length payload) max_frame)) [
  | inl small ↦
      let not_large : ltb max_frame (length payload) ≡ false = ground (arith, small) in
      let whole : leb (length payload) (length (payload ++ rest)) ≡ true =
        le→leb _ _ (omega (arith, length-append payload rest)) in
      rw (small, not_large, whole, take-append payload rest, drop-append payload rest) refl
  | inr large ↦
      let too_large : ltb max_frame (length payload) ≡ true = ground (arith, large) in
      rw (large, too_large) refl
]

-- A frame whose payload has less than 2 ^ 32 bytes is read back from the stream as it was written, type and
-- payload, and what follows it is left in the stream, if the payload has at most 64 MiB; a longer payload
-- is written all the same, and refused by the reader.
pub read_frame-write_frame :
    {Msg : Type 0} (marshal : Msg → Option (List ℕ)) (type : ℕ) (msg : Msg) (payload rest : List ℕ)
    → marshal msg ≡ some payload
    → length payload < 4294967296
    → ((write_frame marshal false false type msg).1 ≡ none)
      × (read_frame ((write_frame marshal false false type msg).0 ++ rest) ≡ (
          if leb (length payload) max_frame
          then frame type payload rest
          else failed (frame_too_large (length payload))))
unfolding write_frame header read_frame
read_frame-write_frame marshal type msg payload rest e short =
    let n = length payload in
    let fits : n % 4294967296 ≡ n = mod-eq_of_lt short in
    rw (write_frame, e)
      (refl, rw (header, read_frame, fits, word_lem n short) (payload_of-append type payload rest))
