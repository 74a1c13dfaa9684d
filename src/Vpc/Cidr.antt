-- ===== src/Vpc/Cidr.antt =====
-- `ValidateCIDR`, `ContainsCIDR` and `OverlapCIDR` of internal/vpc/cidr.go. `none` is an error. The
-- parser knows IPv4 blocks only, so that a block of IPv6, which the code refuses, does not parse.
use native.Mathlib.Nat.{div-div-eq-div-mul, pow-suc, mul_assoc}
use capper.Prelude.{
  ℕ, zero, suc, ◌+◌, ◌-◌, ◌*◌, ◌/◌, ◌^◌, ◌≤◌, String, Bool, true, false, not, ◌&&◌, ◌||◌, List, [],
  ◌∷◌, Option, none, some, str_eq, eq_iff, ltb, leb, ◌==◌, ==_iff, if◌then◌else◌, ◌≡◌, ◌≢◌, ◌↔◌,
  refl, sym, ap, ◌∙◌, inl, inr, arith, Bool-cases,
}
use capper.Prelude.Below.{passes_below, passes_below-lt}
use capper.Network.{IpNet, NetText, size, contains}

-- The four bytes of a mask of `bits` ones.
mask_byte : ℕ → ℕ
mask_byte ones = 256 - 2 ^ (8 - (if ltb 8 ones then 8 else ones))

unfoldable pub mask : ℕ → List ℕ
unfolding mask_byte
mask bits =
    mask_byte bits ∷ mask_byte (bits - 8) ∷ mask_byte (bits - 16) ∷ mask_byte (bits - 24) ∷ []

-- `maskAtLeast`: the parent's mask if no byte of the child's is smaller.
pub some_less : List ℕ → List ℕ → Bool
some_less (p ∷ ps) (c ∷ cs) = ltb c p || some_less ps cs
some_less ps cs = false

unfoldable pub bytes_equal : List ℕ → List ℕ → Bool
bytes_equal [] [] = true
bytes_equal (a ∷ as') (b ∷ bs) = (a == b) && bytes_equal as' bs
bytes_equal xs ys = false

unfoldable pub mask_at_least : List ℕ → List ℕ → List ℕ
unfolding some_less
mask_at_least parent child = if some_less parent child then child else parent

module _ (nt : NetText) where
  open nt use {parse_cidr}

  unfoldable pub validate_cidr : String → Option IpNet
  validate_cidr cidr = if str_eq cidr "" then none else parse_cidr cidr

  contains_nets : Option IpNet → Option IpNet → Option Bool
  contains_nets none c = none
  contains_nets (some p) none = none
  contains_nets (some p) (some c) =
      some
        (contains p c.ip && bytes_equal (mask p.bits) (mask_at_least (mask p.bits) (mask c.bits)))

  unfoldable pub contains_cidr : String → String → Option Bool
  unfolding contains_nets bytes_equal mask_at_least mask
  contains_cidr parent child = contains_nets (validate_cidr parent) (validate_cidr child)

  overlap_nets : Bool → Option IpNet → Option IpNet → Option Bool
  overlap_nets same none b = none
  overlap_nets same (some a) none = none
  overlap_nets same (some a) (some b) = some (same || (contains a b.ip || contains b a.ip))

  pub overlap_cidr : String → String → Option Bool
  unfolding overlap_nets
  overlap_cidr a b = overlap_nets (str_eq a b) (validate_cidr a) (validate_cidr b)

pow_add : (n m : ℕ) → 2 ^ (n + m) ≡ 2 ^ n * 2 ^ m
pow_add n zero = let e : n + 0 ≡ n = omega arith in rw e (omega arith)
pow_add n (suc m) =
    let e : n + suc m ≡ suc (n + m) = omega arith in
    rw e
      (rw (pow-suc 2 (n + m)) (rw (pow-suc 2 m) (rw (pow_add n m) (mul_assoc (2 ^ n) (2 ^ m) 2))))

-- A shorter mask joins what a longer one joins.
coarser :
    (p c x y : ℕ)
    → p ≤ c
    → c ≤ 32
    → x / 2 ^ (32 - c) ≡ y / 2 ^ (32 - c)
    → x / 2 ^ (32 - p) ≡ y / 2 ^ (32 - p)
coarser p c x y h k e =
    let s : 32 - p ≡ (32 - c) + (c - p) = omega arith in
    rw s (
      rw (pow_add (32 - c) (c - p)) (
        rw (← div-div-eq-div-mul x (2 ^ (32 - c)) (2 ^ (c - p)))
          (rw (← div-div-eq-div-mul y (2 ^ (32 - c)) (2 ^ (c - p))) (rw e))))

contains_iff : (net : IpNet) (a : ℕ) → (contains net a ≡ true) ↔ (a / size net ≡ net.ip / size net)
unfolding contains
contains_iff net a = ==_iff (a / size net) (net.ip / size net)

contains_self : (net : IpNet) → contains net net.ip ≡ true
contains_self net = (contains_iff net net.ip).1 refl

-- A block whose mask is no longer contains the start of a block that it shares an address with.
shared_start :
    (a b : IpNet) (x : ℕ)
    → a.bits ≤ b.bits
    → b.bits ≤ 32
    → contains a x ≡ true
    → contains b x ≡ true
    → contains a b.ip ≡ true
shared_start a b x h k p q =
    let e = coarser a.bits b.bits x b.ip h k ((contains_iff b x).0 q) in
    (contains_iff a b.ip).1 (sym e ∙ (contains_iff a x).0 p)

-- Of two blocks that parse, the code reports an overlap exactly if some address lies in both.
pub overlap_cidr_shared :
    (nt : NetText) (s t : String) (a b : IpNet)
    → s ≢ ""
    → t ≢ ""
    → nt.parse_cidr s ≡ some a
    → nt.parse_cidr t ≡ some b
    → (overlap_cidr nt s t ≡ some true) ↔ ((x : ℕ) × (contains a x ≡ true) × (contains b x ≡ true))
unfolding overlap_cidr validate_cidr
overlap_cidr_shared nt s t a b hs ht pa pb = (to, from)
  where
    same_block : str_eq s t ≡ true → a ≡ b
    same_block e = ground (arith, pa, pb, ap nt.parse_cidr ((eq_iff s t).0 e))

    found :
        (str_eq s t || (contains a b.ip || contains b a.ip)) ≡ true
        → (x : ℕ) × (contains a x ≡ true) × (contains b x ≡ true)
    found h = elim (Bool-cases (contains a b.ip)) [
      | inl i ↦ (b.ip, i, contains_self b)
      | inr i ↦ elim (Bool-cases (contains b a.ip)) [
        | inl j ↦ (a.ip, contains_self a, j)
        | inr j ↦
            let e : str_eq s t ≡ true = ground arith in
            (a.ip, contains_self a, rw (← same_block e) (contains_self a))
      ]
    ]

    to : overlap_cidr nt s t ≡ some true → (x : ℕ) × (contains a x ≡ true) × (contains b x ≡ true)
    to h = found (ground (arith, pa, pb, eq_iff s "", eq_iff t ""))

    from :
        ((x : ℕ) × (contains a x ≡ true) × (contains b x ≡ true)) → overlap_cidr nt s t ≡ some true
    from (x, p, q) =
        let va = nt.parse_cidr-IsNet s a pa in
        let vb = nt.parse_cidr-IsNet t b pb in
        elim (Bool-cases (leb a.bits b.bits)) [
          | inl h ↦
              let i = shared_start a b x (ground arith) vb.short p q in
              ground (arith, pa, pb, eq_iff s "", eq_iff t "", i)
          | inr h ↦
              let i = shared_start b a x (ground arith) va.short q p in
              ground (arith, pa, pb, eq_iff s "", eq_iff t "", i)
        ]

longer : ℕ → ℕ → Bool
longer p c = bytes_equal (mask p) (mask_at_least (mask p) (mask c))

-- For the masks of p and c ones, the test says whether p is at most c.
ordered : ℕ → ℕ → Bool
unfolding longer
ordered p c = if leb p c then longer p c else not (longer p c)

mask_table : passes_below (λ p. passes_below (ordered p) 33) 33 ≡ true
unfolding passes_below ordered bytes_equal mask_at_least mask
mask_table = refl

longer_iff : (p c : ℕ) → p ≤ 32 → c ≤ 32 → (longer p c ≡ true) ↔ (p ≤ c)
unfolding ordered
longer_iff p c h k =
    let row = passes_below-lt (λ p. passes_below (ordered p) 33) 33 p (omega arith) mask_table in
    let cell = passes_below-lt (ordered p) 33 c (omega arith) row in ground (arith, cell)

-- Of two blocks that parse, where the code says that the parent contains the child, the child's mask
-- is at least as long, and every address `y` of the child lies in the parent.
pub contains_cidr_subset :
    (nt : NetText) (s t : String) (a b : IpNet) (y : ℕ)
    → s ≢ ""
    → t ≢ ""
    → nt.parse_cidr s ≡ some a
    → nt.parse_cidr t ≡ some b
    → contains_cidr nt s t ≡ some true
    → contains b y ≡ true
    → (a.bits ≤ b.bits) × (contains a y ≡ true)
unfolding contains_cidr validate_cidr longer
contains_cidr_subset nt s t a b y hs ht pa pb h q =
    let va = nt.parse_cidr-IsNet s a pa in
    let vb = nt.parse_cidr-IsNet t b pb in
    let i : contains a b.ip ≡ true = ground (arith, pa, pb, eq_iff s "", eq_iff t "") in
    let l : longer a.bits b.bits ≡ true = ground (arith, pa, pb, eq_iff s "", eq_iff t "") in
    let m = (longer_iff a.bits b.bits va.short vb.short).0 l in
    (
      m,
      (contains_iff a y).1 (
          coarser a.bits b.bits y b.ip m vb.short ((contains_iff b y).0 q)
          ∙ (contains_iff a b.ip).0 i),
    )
