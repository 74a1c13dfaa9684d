-- ===== src/Csd/Extents/Wrapped/Read.antt =====
-- Read of internal/csd/server/extent_manager.go on int64, where the file and the range end below 2 ^ 63.
use capper.Prelude.{
  ℕ, ◌+◌, ◌-◌, ◌≤◌, ◌≡◌, ◌∙◌, refl, ap, String, true, false, List, [], ◌∷◌, some, keep, keep-All,
  find, str_eq, ◌==◌, length, leb, ltb, ltb→lt, min, arith, All, Bool-cases, inl, inr, Option-cases,
}
use capper.Prelude.Action.{ok}
use capper.Csd.Extents
use capper.Csd.Extents.{Inode, Extent, Object, Disk, object_of, Faults, ReadReq, extent_size}
use capper.Csd.Extents.Overlay.{length-add_extent, length-zeroes, by_offset-All}
use capper.Csd.Extents.Wrapped
use capper.Csd.Extents.Wrapped.{slice}
use capper.Csd.Extents.Wrapped.Plain.{
  Small, plus-Small, minus-Small, negative-Small, raised-Small, less-Small, minus-negative,
  bind-same,
}
use capper.Csd.Extents.Wrapped.Copy.{Ends, add_extent-Small}

-- The objects are no larger than an extent.
abbrev pub Kept : Disk → Type 0
Kept d = All (λ o. length o.bytes ≤ extent_size) d.objects

object_of-Kept :
    (volume name : String) (objects : List Object) (bytes : List ℕ)
    → All (λ o. length o.bytes ≤ extent_size) objects
    → object_of volume name objects ≡ some bytes
    → length bytes ≤ extent_size
object_of-Kept volume name [] bytes a e = absurd ground (arith, e)
object_of-Kept volume name (o ∷ objects) bytes a e =
    ground (arith, a.0, e, object_of-Kept volume name objects bytes a.1)

module _ (f : Faults) (req : ReadReq) (l : Small (req.offset + req.length)) where
  read_all-Small :
      (es : List Extent) (result : List ℕ) (d : Disk)
      → All Ends es
      → Kept d
      → length result ≡ req.length
      → Wrapped.read_all f req es result d ≡ Extents.read_all f req es result d
  unfolding Wrapped.read_all Extents.read_all
  read_all-Small [] result d a k m = refl
  read_all-Small (e ∷ es) result d a k m = elim (Bool-cases (f (Extents.get_extent e.object_key))) [
    | inl b ↦ rw b refl
    | inr b ↦ elim (Option-cases (object_of req.volume_id e.object_key d.objects)) [
      | inl z ↦ rw (b, z) refl
      | inr (bytes, z) ↦
          let small = object_of-Kept req.volume_id e.object_key d.objects bytes k z in
          rw (b, z, add_extent-Small req e bytes result a.0 small l m)
            (read_all-Small es (Extents.add_extent req e bytes result) d a.1 k
              (length-add_extent req e bytes result ∙ m))
    ]
  ]

  in_range-Small : (e : Extent) → Ends e → Wrapped.in_range f req e ≡ Extents.in_range f req e
  unfolding Wrapped.in_range Extents.in_range
  in_range-Small e h =
      let shift : ltb (req.offset + 9_223_372_036_854_775_808)
            (e.offset_bytes + 9_223_372_036_854_775_808 + e.length_bytes)
          ≡ ltb req.offset (e.offset_bytes + e.length_bytes) =
        ground arith in
      rw
        (
          plus-Small req.offset req.length l,
          less-Small e.offset_bytes (req.offset + req.length) (omega (arith, h)) l,
          raised-Small req.offset (omega (arith, l)),
          raised-Small e.offset_bytes (omega (arith, h)),
          shift,
        )
        refl

  keep-Small :
      (es : List Extent)
      → All Ends es
      → keep (Wrapped.in_range f req) es ≡ keep (Extents.in_range f req) es
  keep-Small [] a = refl
  keep-Small (e ∷ es) a = elim (Bool-cases (Extents.in_range f req e)) [
    | inl b ↦ rw (in_range-Small e a.0, b, keep-Small es a.1) refl
    | inr b ↦ rw (in_range-Small e a.0, b, keep-Small es a.1) refl
  ]

  place-Small :
      (e : Extent) (es : List Extent)
      → Ends e
      → All Ends es
      → Wrapped.place e es ≡ Extents.place e es
  unfolding Wrapped.place Extents.place
  place-Small e [] h a = refl
  place-Small e (x ∷ xs) h a =
      rw
        (
          less-Small x.offset_bytes e.offset_bytes (omega (arith, a.0)) (omega (arith, h)),
          place-Small e xs h a.1,
        )
        (ground arith)

  by_offset-Small : (es : List Extent) → All Ends es → Wrapped.by_offset es ≡ Extents.by_offset es
  unfolding Wrapped.by_offset Extents.by_offset
  by_offset-Small [] a = refl
  by_offset-Small (e ∷ es) a =
      ap (Wrapped.place e) (by_offset-Small es a.1)
      ∙ place-Small e (Extents.by_offset es) a.0 (by_offset-All Ends es a.1)

  cut-Small :
      (n : Inode) (result : List ℕ)
      → Small n.size_bytes
      → Wrapped.cut f req n result ≡ Extents.cut f req n result
  unfolding Wrapped.cut Extents.cut
  cut-Small n result h = elim (Bool-cases (ltb n.size_bytes req.offset)) [
    | inl b ↦
        let x = ltb→lt n.size_bytes req.offset b in
        let z : n.size_bytes - req.offset ≡ 0 = omega (arith, x) in
        rw
          (
            minus-negative n.size_bytes req.offset (omega (arith, l)) x,
            z,
            less-Small 0 req.length (omega arith) (omega (arith, l)),
          )
          refl
    | inr b ↦
        let x : req.offset ≤ n.size_bytes = ground (arith, b) in
        rw
          (
            minus-Small n.size_bytes req.offset h x,
            negative-Small (n.size_bytes - req.offset) (omega (arith, h)),
            less-Small (n.size_bytes - req.offset) req.length (omega (arith, h)) (omega (arith, l)),
          )
          refl
  ]

  read_inline-Small :
      (bytes : List ℕ) (d : Disk)
      → Small (length bytes)
      → Wrapped.read_inline f req bytes d ≡ (ok (Extents.read_inline f req bytes), d)
  unfolding Wrapped.read_inline Extents.read_inline slice
  read_inline-Small bytes d h = elim (Bool-cases (ltb req.offset (length bytes))) [
    | inl b ↦
        let x = ltb→lt req.offset (length bytes) b in
        let within : leb (length bytes) req.offset ≡ false = ground (arith, x) in
        let to = min (req.offset + req.length) (length bytes) in
        let ordered : ltb to req.offset ≡ false = ground (arith, x) in
        let inside : ltb (length bytes) to ≡ false = ground arith in
        rw
          (
            end_lem,
            less-Small req.offset (length bytes) (omega (arith, l)) h,
            b,
            within,
            negative-Small req.offset (omega (arith, l)),
            less-Small to req.offset (omega (arith, h)) (omega (arith, l)),
            less-Small (length bytes) to h (omega (arith, h)),
            ordered,
            inside,
          )
          refl
    | inr b ↦
        let beyond : leb (length bytes) req.offset ≡ true = ground (arith, b) in
        rw (less-Small req.offset (length bytes) (omega (arith, l)) h, b, beyond) refl
  ]
    where
      end_lem : Wrapped.end_of f req bytes ≡ min (req.offset + req.length) (length bytes)
      end_lem =
          rw
            (
              plus-Small req.offset req.length l,
              less-Small (length bytes) (req.offset + req.length) h l,
            )
            (elim (Bool-cases (ltb (length bytes) (req.offset + req.length))) [
              | inl b ↦ rw b (ground (arith, b))
              | inr b ↦ rw b (ground (arith, b))
            ])

  from_extents-Small :
      (n : Inode) (d : Disk)
      → Small n.size_bytes
      → All Ends d.extents
      → Kept d
      → Wrapped.from_extents f req n d ≡ Extents.from_extents f req n d
  unfolding Wrapped.from_extents Extents.from_extents
  from_extents-Small n d h a k = elim (Bool-cases (f Extents.list_extents)) [
    | inl b ↦ rw b refl
    | inr b ↦
        let rows = Extents.by_offset (keep (Extents.in_range f req) d.extents) in
        let kept = keep-All (Extents.in_range f req) Ends d.extents a in
        let same : Wrapped.by_offset (keep (Wrapped.in_range f req) d.extents) ≡ rows =
          ap Wrapped.by_offset (keep-Small d.extents a)
          ∙ by_offset-Small (keep (Extents.in_range f req) d.extents) kept in
        rw
          (
            b,
            same,
            negative-Small req.length (omega (arith, l)),
            read_all-Small rows (Extents.zeroes req.length) d
                (by_offset-All Ends (keep (Extents.in_range f req) d.extents) kept) k
                (length-zeroes req.length),
          )
          (bind-same (Extents.read_all f req rows (Extents.zeroes req.length))
            (λ r e. (ok (Wrapped.cut f req n r), e)) (λ r e. (ok (Extents.cut f req n r), e)) d
            (λ r e. ap (λ x. (ok x, e)) (cut-Small n r h)))
  ]

  -- A file, its bytes in the inode and its extents, that end below 2 ^ 63.
  pub read-Small :
      (n : Inode) (d : Disk)
      → find (λ x. str_eq x.id req.inode_id) d.inodes ≡ some n
      → Small n.size_bytes
      → Small (length n.inline_data)
      → All Ends d.extents
      → Kept d
      → Wrapped.read f req d ≡ Extents.read f req d
  unfolding Wrapped.read Extents.read
  read-Small n d e h i a k = elim (Bool-cases (f Extents.get_inode)) [
    | inl b ↦ rw b refl
    | inr b ↦ elim (Bool-cases (length n.inline_data == 0)) [
      | inl z ↦ rw (b, e, z) (from_extents-Small n d h a k)
      | inr z ↦ rw (b, e, z) (read_inline-Small n.inline_data d i)
    ]
  ]
