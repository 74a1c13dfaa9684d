-- ===== src/Access/Glob.antt =====
-- The pattern matching of internal/authz/authz.go: `matchGlob`, `matchesAny`, `resourceMatchesAny`.
use capper.Prelude.{
  ◌-◌, Bool, true, ◌||◌, List, [], ◌∷◌, ◌++◌, ◌≡◌, refl, ◌↔◌, ◌⊎◌, inl, inr, length, take, any, Any,
  any_iff, arith, if◌then◌else◌, Bool-cases,
}
use capper.Prelude.Bytes.{
  Bytes, codes, bytes_eq, bytes_eq_iff, has_prefix, has_suffix, has_prefix-append, has_prefix_rest,
  has_suffix-append, has_suffix_rest, take_of_append,
}

abbrev pub star : Bytes
star = codes "*"

pub match_glob : Bytes → Bytes → Bool
match_glob pattern value =
    if bytes_eq pattern star
    then true
    else if has_suffix pattern star
    then has_prefix value (take (length pattern - 1) pattern)
    else bytes_eq pattern value

pub matches_any : List Bytes → Bytes → Bool
matches_any patterns value = any (λ p. match_glob p value) patterns

pub resource_matches_any : List Bytes → Bytes → Bool
resource_matches_any [] crn = true
resource_matches_any (p ∷ ps) crn = any (λ q. bytes_eq q star || match_glob q crn) (p ∷ ps)

-- A value is the pattern itself, or extends what stands before the pattern's final star.
abbrev pub Matches : Bytes → Bytes → Type 0
Matches p v = (p ≡ v) ⊎ ((q : Bytes) × (r : Bytes) × (p ≡ q ++ star) × (v ≡ q ++ r))

match_glob_sound : (p v : Bytes) → match_glob p v ≡ true → Matches p v
unfolding match_glob
match_glob_sound p v h = elim (Bool-cases (bytes_eq p star)) [
  | inl e ↦ inr ([], v, (bytes_eq_iff p star).0 e, refl)
  | inr e ↦ elim (Bool-cases (has_suffix p star)) [
    | inl s ↦
        let q = take (length p - 1) p in
        let h' : has_prefix v q ≡ true = ground arith in
        inr (q, _, has_suffix_rest p star s, has_prefix_rest v q h')
    | inr s ↦ inl (ground (arith, bytes_eq_iff p v))
  ]
]

match_glob_self : (p : Bytes) → match_glob p p ≡ true
unfolding match_glob
match_glob_self p = elim (Bool-cases (has_suffix p star)) [
  | inl s ↦
      let q = take (length p - 1) p in
      let e : has_prefix p q ≡ true =
        ground (arith, has_suffix_rest p star s, has_prefix-append q star) in
      ground arith
  | inr s ↦ ground (arith, bytes_eq_iff p p)
]

match_glob-star : (q r : Bytes) → match_glob (q ++ star) (q ++ r) ≡ true
unfolding match_glob
match_glob-star q r =
    ground (arith, has_suffix-append q star, take_of_append q star, has_prefix-append q r)

-- The matcher accepts exactly the values that the pattern describes: the pattern itself, and the
-- extensions of what precedes a final star.
pub match_glob-Matches : (p v : Bytes) → (match_glob p v ≡ true) ↔ Matches p v
match_glob-Matches p v = (match_glob_sound p v, back)
  where
    back : Matches p v → match_glob p v ≡ true
    back (inl e) = ground (arith, match_glob_self p)
    back (inr (q, r, e, f)) = ground (arith, match_glob-star q r)

pub matches_any-Any :
    (ps : List Bytes) (v : Bytes) → (matches_any ps v ≡ true) ↔ Any (λ p. Matches p v) ps
unfolding matches_any
matches_any-Any ps v = any_iff _ _ (λ p. match_glob-Matches p v) ps

-- A statement with no resources is about every resource.
abbrev pub Covers : List Bytes → Bytes → Type 0
Covers ps v = (ps ≡ []) ⊎ Any (λ p. Matches p v) ps

pub resource_matches_any-Covers :
    (ps : List Bytes) (v : Bytes) → (resource_matches_any ps v ≡ true) ↔ Covers ps v
unfolding resource_matches_any
resource_matches_any-Covers [] v = ((λ e. inl refl), (λ c. refl))
resource_matches_any-Covers (p ∷ ps) v = ((λ e. inr (h.0 e)), back)
  where
    one : (q : Bytes) → ((bytes_eq q star || match_glob q v) ≡ true) ↔ Matches q v
    one q = ground (arith, match_glob-Matches q v, bytes_eq_iff q star, match_glob-star [] v)

    h :
        (any (λ q. bytes_eq q star || match_glob q v) (p ∷ ps) ≡ true)
        ↔ Any (λ q. Matches q v) (p ∷ ps)
    h = any_iff _ _ one (p ∷ ps)

    back : Covers (p ∷ ps) v → any (λ q. bytes_eq q star || match_glob q v) (p ∷ ps) ≡ true
    back (inl e) = cc
    back (inr a) = h.1 a
