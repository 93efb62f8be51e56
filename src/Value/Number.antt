-- ===== src/Value/Number.antt =====
-- IEEE doubles as the program compares them. `finite z f` is z + f / 2 ^ 1074 (z rounded down): every
-- double is such a number, with f below 2 ^ 1074, and comparison is lexicographic.
use react_native_nitro_sync.Prelude.{
  ℕ, ◌≡◌, ◌⊎◌, Bool, true, false, not, ◌&&◌, ◌||◌, ltb, leb, eqb, arith, if◌then◌else◌,
}

-- `negsuc n` is -(n + 1).
pub data ℤ : Type 0 where
  pos : ℕ → ℤ
  negsuc : ℕ → ℤ

abbrev pub ltb_ℤ : ℤ → ℤ → Bool
ltb_ℤ (pos a) (pos b) = ltb a b
ltb_ℤ (pos a) (negsuc b) = false
ltb_ℤ (negsuc a) (pos b) = true
ltb_ℤ (negsuc a) (negsuc b) = ltb b a

pub data Number : Type 0 where
  nan : Number
  infinity : Number
  neg_infinity : Number
  finite : ℤ → ℕ → Number

-- A non-negative integer literal.
abbrev pub num : ℕ → Number
num n = finite (pos n) 0

-- `a <= b`
unfoldable pub number_leb : Number → Number → Bool
number_leb nan b = false
number_leb a nan = false
number_leb neg_infinity b = true
number_leb a infinity = true
number_leb infinity b = false
number_leb a neg_infinity = false
number_leb (finite a f) (finite b g) = ltb_ℤ a b || (not (ltb_ℤ b a) && leb f g)

-- `a < b`
unfoldable pub number_ltb : Number → Number → Bool
number_ltb a b = number_leb a b && not (number_leb b a)

-- `Number.isFinite(a)`
unfoldable pub is_finite : Number → Bool
is_finite (finite a f) = true
is_finite a = false

-- `a === 0`
unfoldable pub is_zero : Number → Bool
is_zero (finite (pos a) f) = eqb a 0 && eqb f 0
is_zero a = false

abbrev pub max_safe_integer : ℕ
max_safe_integer = 9007199254740991

-- `Number.isSafeInteger(a)`
unfoldable pub is_safe_integer : Number → Bool
is_safe_integer (finite (pos a) f) = eqb f 0 && leb a max_safe_integer
is_safe_integer (finite (negsuc a) f) = eqb f 0 && ltb a max_safe_integer
is_safe_integer a = false

-- `Number.isSafeInteger(a) && a > 0`
unfoldable pub is_positive_safe_integer : Number → Bool
unfolding is_safe_integer number_leb
is_positive_safe_integer a = is_safe_integer a && not (number_leb a (num 0))

abbrev is_nan : Number → Bool
is_nan nan = true
is_nan a = false

-- `Math.max(a, b)`
unfoldable pub number_max : Number → Number → Number
number_max a b = if is_nan a then nan else if is_nan b then nan else if number_leb a b then b else a

-- Every number but NaN is comparable with every other.
pub number_leb_total :
    (a b : Number)
    → is_finite a ≡ true
    → is_finite b ≡ true
    → (number_leb a b ≡ true) ⊎ (number_leb b a ≡ true)
unfolding number_leb is_finite
number_leb_total (finite a f) (finite b g) h k = ground arith
number_leb_total nan b h k = cc
number_leb_total infinity b h k = cc
number_leb_total neg_infinity b h k = cc
number_leb_total (finite a f) nan h k = cc
number_leb_total (finite a f) infinity h k = cc
number_leb_total (finite a f) neg_infinity h k = cc

pub number_leb_trans :
    (a b c : Number) → number_leb a b ≡ true → number_leb b c ≡ true → number_leb a c ≡ true
unfolding number_leb
number_leb_trans a b c h k = ground arith

pub number_leb_refl : (a : Number) → is_finite a ≡ true → number_leb a a ≡ true
unfolding number_leb is_finite
number_leb_refl (finite a f) h = ground arith
number_leb_refl nan h = cc
number_leb_refl infinity h = cc
number_leb_refl neg_infinity h = cc

pub number_leb_zero : (a b : Number) → is_zero a ≡ true → is_zero b ≡ true → number_leb a b ≡ true
unfolding number_leb is_zero
number_leb_zero a b h k = ground arith
