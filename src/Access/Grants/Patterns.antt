-- ===== src/Access/Grants/Patterns.antt =====
-- What the patterns and scopes of internal/iam/eval.go accept.
use capper.Prelude.{
  ◌-◌, true, List, [], ◌++◌, take, drop, length, ◌≡◌, ◌↔◌, ◌⊎◌, inl, inr, Any, any_iff, arith,
  Bool-cases, sym, ◌∙◌,
}
use capper.Prelude.Bytes.{
  Bytes, codes, bytes_eq, bytes_eq_iff, has_prefix, has_suffix, has_prefix-append, has_prefix_rest,
  has_suffix-append, has_suffix_rest, take_of_append,
}
use mathlib.Core.List.{append_assoc}
use capper.Access.Grants.{match_pattern, matches_any, match_resource}

-- The pattern ends in the separator and a star, and the value extends it up to the separator.
abbrev pub Under : Bytes → Bytes → Bytes → Type 0
Under sep p v = (q : Bytes) × (r : Bytes) × (p ≡ q ++ (sep ++ codes "*")) × (v ≡ (q ++ sep) ++ r)

abbrev pub Matches : Bytes → Bytes → Type 0
Matches p v = (p ≡ v) ⊎ ((p ≡ codes "*") ⊎ (Under (codes ":") p v ⊎ Under (codes "/") p v))

-- `strings.TrimSuffix(pattern, "*")`.
chop : (q sep p : Bytes) → p ≡ q ++ (sep ++ codes "*") → take (length p - 1) p ≡ q ++ sep
chop q sep p e =
    rw e (rw (← append_assoc q sep (codes "*")) (take_of_append (q ++ sep) (codes "*")))

Under-intro :
    (sep p v : Bytes)
    → has_suffix p (sep ++ codes "*") ≡ true
    → has_prefix v (take (length p - 1) p) ≡ true
    → Under sep p v
Under-intro sep p v s h =
    let q = take (length p - length (sep ++ codes "*")) p in
    let e = has_suffix_rest p (sep ++ codes "*") s in
    let h' : has_prefix v (q ++ sep) ≡ true = rw (chop q sep p e) at h in
    (q, drop (length (q ++ sep)) v, e, has_prefix_rest v (q ++ sep) h')

match_pattern_sound : (p v : Bytes) → match_pattern p v ≡ true → Matches p v
unfolding match_pattern
match_pattern_sound p v h = elim (Bool-cases (bytes_eq p (codes "*"))) [
  | inl e ↦ inr (inl ((bytes_eq_iff p (codes "*")).0 e))
  | inr e ↦ elim (Bool-cases (has_suffix p (codes ":*"))) [
    | inl s ↦ inr (inr (inl (Under-intro (codes ":") p v s (ground arith))))
    | inr s ↦ elim (Bool-cases (has_suffix p (codes "/*"))) [
      | inl t ↦ inr (inr (inr (Under-intro (codes "/") p v t (ground arith))))
      | inr t ↦ inl (ground (arith, bytes_eq_iff p v))
    ]
  ]
]

Under-prefix : (sep p v : Bytes) → Under sep p v → has_prefix v (take (length p - 1) p) ≡ true
Under-prefix sep p v (q, r, e, f) = rw (chop q sep p e) (rw f (has_prefix-append (q ++ sep) r))

Under-suffix : (sep p v : Bytes) → Under sep p v → has_suffix p (sep ++ codes "*") ≡ true
Under-suffix sep p v (q, r, e, f) = rw e (has_suffix-append q (sep ++ codes "*"))

self_prefix :
    (sep p : Bytes)
    → has_suffix p (sep ++ codes "*") ≡ true
    → has_prefix p (take (length p - 1) p) ≡ true
self_prefix sep p s =
    Under-prefix sep p p (q, codes "*", e, e ∙ sym (append_assoc q sep (codes "*")))
  where
    q : Bytes
    q = take (length p - length (sep ++ codes "*")) p

    e : p ≡ q ++ (sep ++ codes "*")
    e = has_suffix_rest p (sep ++ codes "*") s

match_pattern_complete : (p v : Bytes) → Matches p v → match_pattern p v ≡ true
unfolding match_pattern
match_pattern_complete p v (inl e) =
    rw (← e)
      (ground (arith, self_prefix (codes ":") p, self_prefix (codes "/") p, bytes_eq_iff p p))
match_pattern_complete p v (inr (inl e)) = ground (arith, bytes_eq_iff p (codes "*"))
match_pattern_complete p v (inr (inr (inl u))) =
    ground (arith, Under-prefix (codes ":") p v u, Under-suffix (codes ":") p v u)
match_pattern_complete p v (inr (inr (inr u))) =
    ground (arith, Under-prefix (codes "/") p v u, Under-suffix (codes "/") p v u)

-- A pattern accepts itself, and "*" everything; a pattern that ends in ":*" or "/*" accepts what
-- extends it up to the separator; no pattern accepts anything else.
pub match_pattern-Matches : (p v : Bytes) → (match_pattern p v ≡ true) ↔ Matches p v
match_pattern-Matches p v = (match_pattern_sound p v, match_pattern_complete p v)

pub matches_any-Any :
    (ps : List Bytes) (v : Bytes) → (matches_any ps v ≡ true) ↔ Any (λ p. Matches p v) ps
unfolding matches_any
matches_any-Any ps v = any_iff _ _ (λ p. match_pattern-Matches p v) ps

abbrev pub InScope : Bytes → Bytes → Type 0
InScope scope resource =
    (scope ≡ []) ⊎ ((scope ≡ codes "*") ⊎ ((r : Bytes) × (resource ≡ scope ++ r)))

pub match_resource-InScope : (s r : Bytes) → (match_resource s r ≡ true) ↔ InScope s r
unfolding match_resource
match_resource-InScope s r = (to, from)
  where
    to : match_resource s r ≡ true → InScope s r
    to h = elim (Bool-cases (bytes_eq s [])) [
      | inl e ↦ inl ((bytes_eq_iff s []).0 e)
      | inr e ↦ elim (Bool-cases (bytes_eq s (codes "*"))) [
        | inl f ↦ inr (inl ((bytes_eq_iff s (codes "*")).0 f))
        | inr f ↦ inr (inr (_, has_prefix_rest r s (ground arith)))
      ]
    ]

    from : InScope s r → match_resource s r ≡ true
    from (inl e) = ground (arith, bytes_eq_iff s [])
    from (inr (inl e)) = ground (arith, bytes_eq_iff s (codes "*"))
    from (inr (inr (t, e))) = ground (arith, has_prefix-append s t)
