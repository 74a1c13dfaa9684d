-- ===== src/Ipam/Expand/Reference.antt =====
-- What `ExpandCIDR` of internal/ipam/cidr.go computes, against a description without its loop.
use native.Mathlib.Nat.{one-le-pow, div-add-mod, mul-mod_right}
use capper.Prelude.{
  ℕ, zero, suc, ◌+◌, ◌-◌, ◌*◌, ◌/◌, ◌%◌, ◌≤◌, ◌<◌, ◌≡◌, ◌∙◌, refl, ap, subst, sym, String, Bool,
  true, false, not, ◌&&◌, ◌||◌, List, [], ◌∷◌, ◌++◌, some, any, map, keep, take, length,
  length-append, str_eq, leb, ltb, ◌==◌, arith, Bool-cases, inl, inr,
}
use mathlib.Core.List.{append_assoc, append-nil}
use capper.Prelude.Int.{ℤ}
use capper.Prelude.Blocks.{in_block_iff}
use capper.Ipam.Expand.Last.{last_addr_lem}
use capper.Ipam.Expand.{
  Prefix, Netip, width, block, masked, contains, last_addr, excluded_texts, skipped, walk, limit_of,
  expand_cidr,
}

-- `n` numbers from `v` on.
pub numbers : ℕ → ℕ → List ℕ
numbers zero v = []
numbers (suc n) v = v ∷ numbers n (v + 1)

module _ (n : Netip) (p : Prefix) (excl : List String) where
  open n use {to_text}

  abbrev text_of : ℕ → String
  text_of v = to_text (record { is4 = p.is4; value = v; zone = "" })

  -- An IPv4 block shorter than /31 does not hand out its first and its last address; no block hands
  -- out an address whose text is excluded.
  unusable : ℕ → Bool
  unusable v =
      (p.is4 && ltb p.bits 31 && (v == p.value || v + 1 == p.value + block p))
      || any (λ t. str_eq t (text_of v)) excl

  -- The texts of the usable addresses, in order, and no more than `max` of them.
  pub listing : ℕ → ℕ → ℕ → List String
  listing max count v = map text_of (take max (keep (λ x. not (unusable x)) (numbers count v)))

  listing-end : (max v : ℕ) → listing max 0 v ≡ []
  unfolding listing numbers
  listing-end zero v = refl
  listing-end (suc max) v = refl

  listing-skip :
      (max count v : ℕ) → unusable v ≡ true → listing max (suc count) v ≡ listing max count (v + 1)
  unfolding listing numbers
  listing-skip max count v s = rw s

  listing-add :
      (max count v : ℕ)
      → unusable v ≡ false
      → listing (suc max) (suc count) v ≡ text_of v ∷ listing max count (v + 1)
  unfolding listing numbers
  listing-add max count v s = rw s

  listing-full : (count v : ℕ) → listing 0 count v ≡ []
  unfolding listing
  listing-full count v = refl

  module _ (short : p.bits ≤ width p.is4) (start : p.value % block p ≡ 0) where
    inside :
        (v : ℕ)
        → p.value ≤ v
        → v < p.value + block p
        → contains p (record { is4 = p.is4; value = v; zone = "" }) ≡ true
    unfolding contains
    inside v h k = ground (
      arith,
      (in_block_iff (block p) p.value v (one-le-pow (width p.is4 - p.bits) 2 (omega arith)) start).1
          (h, k),
    )

    outside : contains p (record { is4 = p.is4; value = p.value + block p; zone = "" }) ≡ false
    unfolding contains
    outside = ground (
      arith,
      in_block_iff (block p) p.value (p.value + block p)
          (one-le-pow (width p.is4 - p.bits) 2 (omega arith)) start,
    )

    skipped-unusable : (v : ℕ) → skipped n p excl v ≡ unusable v
    unfolding skipped unusable
    skipped-unusable v = elim (Bool-cases p.is4) [
      | inl four ↦
          let e = last_addr_lem p four start in
          let last : (v == last_addr p) ≡ (v + 1 == p.value + block p) = ground (arith, e) in
          rw last refl
      | inr six ↦ rw six refl
    ]

    walk-past :
        (max rounds : ℕ) (out : List String)
        → walk n p excl max (suc rounds) (p.value + block p) out ≡ out
    unfolding walk
    walk-past max rounds out = rw outside

    walk_lem :
        (max count v rounds : ℕ) (out : List String)
        → v + count ≡ p.value + block p
        → p.value ≤ v
        → count < rounds
        → walk n p excl max rounds v out ≡ out ++ listing (max - length out) count v
    unfolding walk
    walk_lem max zero v zero out e h k = absurd (omega arith)
    walk_lem max (suc count) v zero out e h k = absurd (omega arith)
    walk_lem max zero v (suc rounds) out e h k =
        let last : p.value + block p ≡ v = omega arith in
        subst (λ x. walk n p excl max (suc rounds) x out ≡ out ++ listing (max - length out) 0 x)
          last
          (rw
            (
              walk-past max rounds out,
              listing-end (max - length out) (p.value + block p),
              append-nil out,
            )
            refl)
    walk_lem max (suc count) v (suc rounds) out e h k =
        let here = inside v h (omega arith) in
        elim (Bool-cases (leb max (length out))) [
          | inl full ↦
              let none_left : max - length out ≡ 0 = ground arith in
              rw (here, full, none_left, listing-full (suc count) v, append-nil out) refl
          | inr room ↦ elim (Bool-cases (skipped n p excl v)) [
            | inl s ↦
                rw
                  (
                    here,
                    room,
                    s,
                    walk_lem max count (v + 1) rounds out (omega arith) (omega arith) (omega arith),
                    listing-skip (max - length out) count v (sym (skipped-unusable v) ∙ s),
                  )
                  refl
            | inr s ↦
                let one_more : max - length out ≡ suc (max - suc (length out)) = ground arith in
                let grown : length (out ++ text_of v ∷ []) ≡ suc (length out) =
                  omega (arith, length-append out (text_of v ∷ [])) in
                rw
                  (
                    here,
                    room,
                    s,
                    walk_lem max count (v + 1) rounds (out ++ text_of v ∷ []) (omega arith)
                        (omega arith) (omega arith),
                    grown,
                    one_more,
                    listing-add (max - suc (length out)) count v (sym (skipped-unusable v) ∙ s),
                    ← append_assoc out (text_of v ∷ [])
                        (listing (max - suc (length out)) count (v + 1)),
                  )
                  refl
          ]
        ]

    walk-listing :
        (max : ℕ) → walk n p excl max (block p + 1) p.value [] ≡ listing max (block p) p.value
    walk-listing max =
        walk_lem max (block p) p.value (block p + 1) [] refl (omega arith) (omega arith)
        ∙ ap (λ k. listing k (block p) p.value) (omega arith)

-- `ExpandCIDR` on a prefix that parses lists, in ascending order, the addresses from the first of its block
-- to the last whose text is neither an excluded address's nor the gateway's and that are not, in an IPv4
-- block shorter than /31, the first or the last one; it stops at the limit, which is 1024 when `max` is
-- not positive.
pub expand_cidr-listing :
    (n : Netip) (cidr gateway : String) (excluded : List String) (max : ℤ) (q : Prefix)
    → n.parse_prefix cidr ≡ some q
    → expand_cidr n cidr gateway excluded max
      ≡ some (
          listing n
            (masked q)
            (excluded_texts n excluded gateway)
            (limit_of max)
            (block q)
            (masked q).value)
unfolding expand_cidr masked
expand_cidr-listing n cidr gateway excluded max q e =
    let whole : (masked q).value ≡ block q * (q.value / block q) =
      omega (arith, div-add-mod q.value (block q)) in
    let start = ap (λ x. x % block q) whole ∙ mul-mod_right (block q) (q.value / block q) in
    let short = n.parse_prefix_bits cidr q e in
    rw (expand_cidr, e)
      (ap some
        (walk-listing n (masked q) (excluded_texts n excluded gateway) short start (limit_of max)))
