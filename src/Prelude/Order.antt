-- ===== src/Prelude/Order.antt =====
-- The order by which the source sorts: strings by their bytes, indexes by value.
use Prim.Native.Nat.{compare, Ordering}
use Prim.Native.Char.{code}
use Prim.Native.String.{String}
use mathlib.Core.Path.{◌≡◌, refl, ap₂}
use mathlib.Core.Bool.{Bool, true, false}
use native.Mathlib.Omega.{arith}
use text.Mathlib.TextEquality.{Char-path}
use spanalyzer.Prelude.Tests.{if◌then◌else◌}
use spanalyzer.Prelude.Int.{ℤ, leb_ℤ}

pub record Ord {ℓ} (A : Type ℓ) : Type ℓ where
  pub le : A → A → Bool
  pub trans : (a b c : A) → le a b ≡ true → le b c ≡ true → le a c ≡ true
  pub antisymm : (a b : A) → le a b ≡ true → le b a ≡ true → a ≡ b
  pub total : (a b : A) → le a b ≡ false → le b a ≡ true

abbrev pub le {ℓ} : {A : Type ℓ} ⦃o : Ord A⦄ → A → A → Bool
le ⦃o⦄ = o.le

pub leb_ℤ_trans : (a b c : ℤ) → leb_ℤ a b ≡ true → leb_ℤ b c ≡ true → leb_ℤ a c ≡ true
leb_ℤ_trans a b c h k = ground arith

pub leb_ℤ_antisymm : (a b : ℤ) → leb_ℤ a b ≡ true → leb_ℤ b a ≡ true → a ≡ b
leb_ℤ_antisymm a b h k = ground arith

pub leb_ℤ_total : (a b : ℤ) → leb_ℤ a b ≡ false → leb_ℤ b a ≡ true
leb_ℤ_total a b h = ground arith

instance abbrev pub int_ord : Ord ℤ
int_ord = record { le = leb_ℤ; trans = leb_ℤ_trans; antisymm = leb_ℤ_antisymm; total = leb_ℤ_total }

-- Go compares strings bytewise; for valid UTF-8 this is the order of the code points.
unfoldable pub str_le : String → String → Bool
str_le String.[] t = true
str_le (String.◌∷◌ c s) String.[] = false
str_le (String.◌∷◌ c s) (String.◌∷◌ d t) = elim (compare (code c) (code d)) [
  | Ordering.lt ↦ true
  | Ordering.eq ↦ str_le s t
  | Ordering.gt ↦ false
]

pub str_le_trans : (a b c : String) → str_le a b ≡ true → str_le b c ≡ true → str_le a c ≡ true
unfolding str_le
str_le_trans String.[] b c h k = refl
str_le_trans (String.◌∷◌ x a) String.[] c h k = ground arith
str_le_trans (String.◌∷◌ x a) (String.◌∷◌ y b) String.[] h k = ground arith
str_le_trans (String.◌∷◌ x a) (String.◌∷◌ y b) (String.◌∷◌ z c) h k =
    ground (arith, str_le_trans a b c)

pub str_le_antisymm : (a b : String) → str_le a b ≡ true → str_le b a ≡ true → a ≡ b
unfolding str_le
str_le_antisymm String.[] String.[] h k = refl
str_le_antisymm String.[] (String.◌∷◌ y b) h k = ground arith
str_le_antisymm (String.◌∷◌ x a) String.[] h k = ground arith
str_le_antisymm (String.◌∷◌ x a) (String.◌∷◌ y b) h k =
    ap₂ String.◌∷◌ (Char-path x y (ground arith))
      (str_le_antisymm a b (ground arith) (ground arith))

pub str_le_total : (a b : String) → str_le a b ≡ false → str_le b a ≡ true
unfolding str_le
str_le_total String.[] b h = ground arith
str_le_total (String.◌∷◌ x a) String.[] h = refl
str_le_total (String.◌∷◌ x a) (String.◌∷◌ y b) h = ground (arith, str_le_total a b)

instance abbrev pub string_ord : Ord String
string_ord = record {
  le = str_le;
  trans = str_le_trans;
  antisymm = str_le_antisymm;
  total = str_le_total;
}

abbrev pub le_bool : Bool → Bool → Bool
le_bool true b = b
le_bool false b = true

pub le_bool_trans : (a b c : Bool) → le_bool a b ≡ true → le_bool b c ≡ true → le_bool a c ≡ true
le_bool_trans true b c h k = ground arith
le_bool_trans false b c h k = refl

pub le_bool_antisymm : (a b : Bool) → le_bool a b ≡ true → le_bool b a ≡ true → a ≡ b
le_bool_antisymm true b h k = ground arith
le_bool_antisymm false b h k = ground arith

pub le_bool_total : (a b : Bool) → le_bool a b ≡ false → le_bool b a ≡ true
le_bool_total true b h = ground arith
le_bool_total false b h = ground arith

instance abbrev pub bool_ord : Ord Bool
bool_ord = record {
  le = le_bool;
  trans = le_bool_trans;
  antisymm = le_bool_antisymm;
  total = le_bool_total;
}

-- By the first field, and by the second where the first are equal.
module _ {ℓ κ} {A : Type ℓ} {B : Type κ} ⦃o : Ord A⦄ ⦃p : Ord B⦄ where
  abbrev pub le_pair : A × B → A × B → Bool
  le_pair (a, b) (c, d) = if o.le a c then (if o.le c a then p.le b d else true) else false

  pub le_pair_trans : (x y z : A × B) → le_pair x y ≡ true → le_pair y z ≡ true → le_pair x z ≡ true
  le_pair_trans (a, b) (c, d) (e, f) h k =
      ground (arith, o.trans a c e, o.trans c e a, o.trans e a c, p.trans b d f)

  pub le_pair_antisymm : (x y : A × B) → le_pair x y ≡ true → le_pair y x ≡ true → x ≡ y
  le_pair_antisymm (a, b) (c, d) h k = ground (arith, o.antisymm a c, p.antisymm b d)

  pub le_pair_total : (x y : A × B) → le_pair x y ≡ false → le_pair y x ≡ true
  le_pair_total (a, b) (c, d) h = ground (arith, o.total a c, o.total c a, p.total b d)

instance abbrev pub pair_ord {ℓ κ} : {A : Type ℓ} {B : Type κ} ⦃o : Ord A⦄ ⦃p : Ord B⦄ → Ord (A × B)
pair_ord = record {
  le = le_pair;
  trans = le_pair_trans;
  antisymm = le_pair_antisymm;
  total = le_pair_total;
}
