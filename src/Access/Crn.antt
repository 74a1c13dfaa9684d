-- ===== src/Access/Crn.antt =====
-- Resource names: `BuildCRN` and `ParseCRN` of internal/authz/authz.go.
use capper.Prelude.{
  ℕ, zero, suc, ◌||◌, not, List, [], ◌∷◌, ◌++◌, Option, none, some, if◌then◌else◌, ◌≡◌, refl, arith,
}
use capper.Prelude.Bytes.{Bytes, codes, bytes_eq, bytes_eq_iff, cut, cut-append, Free}

abbrev pub colon : ℕ
colon = b':'

abbrev pub slash : ℕ
slash = b'/'

-- The six values that `ParseCRN` returns beside its error.
pub record Crn : Type 0 where
  pub service : Bytes
  pub realm : Bytes
  pub region : Bytes
  pub account_id : Bytes
  pub resource_type : Bytes
  pub resource_id : Bytes

pub build_crn : Crn → Bytes
build_crn c =
    codes "crn"
    ++ colon
      ∷ (codes "capper"
          ++ colon
            ∷ (c.service
                ++ colon
                  ∷ (c.realm
                      ++ colon
                        ∷ (c.region
                            ++ colon
                              ∷ (c.account_id
                                  ++ colon ∷ (c.resource_type ++ slash ∷ c.resource_id))))))

-- `strings.SplitN(s, sep, n + 1)`: at most n + 1 pieces, the last one unsplit.
pub split_n : ℕ → ℕ → Bytes → List Bytes
split_n sep zero s = s ∷ []
split_n sep (suc n) s =
    let (piece, after) = cut sep s in
    elim after [ none ↦ piece ∷ [] | some rest ↦ piece ∷ split_n sep n rest ]

-- What stands before the first slash, and what stands after it; no slash leaves the id empty.
parse_rest : Bytes → Bytes × Option Bytes → Crn → Crn
parse_rest rest (before, none) c = record c { resource_type = rest }
parse_rest rest (before, some after) c = record c { resource_type = before; resource_id = after }

-- `none` is the error "invalid CRN".
parse_parts : List Bytes → Option Crn
parse_parts (p0 ∷ p1 ∷ p2 ∷ p3 ∷ p4 ∷ p5 ∷ p6 ∷ more) =
    if not (bytes_eq p0 (codes "crn")) || not (bytes_eq p1 (codes "capper"))
    then none
    else some (
        parse_rest p6 (cut slash p6) (record {
          service = p2;
          realm = p3;
          region = p4;
          account_id = p5;
          resource_type = [];
          resource_id = [];
        }))
parse_parts parts = none

pub parse_crn : Bytes → Option Crn
unfolding split_n parse_parts parse_rest
parse_crn crn = parse_parts (split_n colon 6 crn)

-- The fields in front of the resource hold no colon, and the type no slash; the id is free.
pub record IsPrintable (c : Crn) : Type 0 where
  pub service : Free colon c.service
  pub realm : Free colon c.realm
  pub region : Free colon c.region
  pub account_id : Free colon c.account_id
  pub resource_type : Free slash c.resource_type

split_n-piece :
    (sep n : ℕ) (a b : Bytes)
    → Free sep a
    → split_n sep (suc n) (a ++ sep ∷ b) ≡ a ∷ split_n sep n b
unfolding split_n
split_n-piece sep n a b f = ground (arith, cut-append sep a b f)

parts_lem :
    (c : Crn)
    → IsPrintable c
    → split_n colon 6 (build_crn c)
      ≡ codes "crn"
        ∷ codes "capper"
        ∷ c.service
        ∷ c.realm
        ∷ c.region
        ∷ c.account_id
        ∷ (c.resource_type ++ slash ∷ c.resource_id)
        ∷ []
unfolding build_crn
parts_lem c p = rw (split_n-piece colon 5 (codes "crn") _ (omega arith)) (
    rw (split_n-piece colon 4 (codes "capper") _ (omega arith)) (
      rw (split_n-piece colon 3 c.service _ p.service) (
        rw (split_n-piece colon 2 c.realm _ p.realm) (
          rw (split_n-piece colon 1 c.region _ p.region)
            (rw (split_n-piece colon 0 c.account_id _ p.account_id) (unfold split_n in refl))))))

-- Parsing a built resource name gives back its six fields, if the first four hold no colon and the
-- resource type no slash; the resource id may hold any bytes.
pub parse_crn-build_crn : (c : Crn) → IsPrintable c → parse_crn (build_crn c) ≡ some c
parse_crn-build_crn c p =
    unfold parse_crn in
    rw (parts_lem c p) (
      unfold parse_parts parse_rest in
      ground (
        arith,
        cut-append slash c.resource_type c.resource_id p.resource_type,
        bytes_eq_iff (codes "crn") (codes "crn"),
        bytes_eq_iff (codes "capper") (codes "capper"),
      ))
