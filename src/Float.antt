-- ===== src/Float.antt =====
-- `f64`: the operations that the program uses, as an interface. No law of rounding is assumed.
-- `total_key` is the integer by which `f64::total_cmp` compares (the bits, with the sign folded
-- in), so that `total_cmp` is the comparison of two numbers; `lt` is `<`, false on a NaN.
use proxybroker_rs.Prelude.{
  Bool, List, Ordering, [], compare, if◌then◌else◌, leb, ltb, ℕ, ◌*◌, ◌+◌, ◌-◌, ◌/◌, ◌^◌, ◌∷◌,
}

pub record Float (F : Type 0) : Type 0 where
  pub zero_f : F
  pub one_f : F
  pub add : F → F → F
  pub sub : F → F → F
  pub mul : F → F → F
  pub div : F → F → F
  pub max_f : F → F → F
  pub lt : F → F → Bool
  pub total_key : F → ℕ
  pub of_nat : ℕ → F
  pub floor : F → ℕ
  pub ceil : F → ℕ
  -- `format!("{x:.2}").parse()`.
  pub round2 : F → F
  -- The literals 0.3, 0.7 and 0.5 of the source, and `0.5.powf(x)`.
  pub three_tenths : F
  pub seven_tenths : F
  pub half_pow : F → F
  pub min_f : F → F → F
  pub le : F → F → Bool
  pub powi : F → ℕ → F
  -- A literal of the source in thousandths, such as 0.02 or 0.95.
  pub thousandths : ℕ → F
  -- `Duration::as_secs_f64` and `from_secs_f64`; a duration is a number of nanoseconds.
  pub as_secs_f64 : ℕ → F
  pub from_secs_f64 : F → ℕ

-- `clamp(0.0, 1.0)`.
abbrev pub clamp_unit : {F : Type 0} ⦃f : Float F⦄ → F → F
clamp_unit ⦃f⦄ x = if f.lt x f.zero_f then f.zero_f else if f.lt f.one_f x then f.one_f else x

-- `Ordering::then`.
abbrev pub then_cmp : Ordering → Ordering → Ordering
then_cmp Ordering.eq o = o
then_cmp o _ = o

module _ {F : Type 0} ⦃f : Float F⦄ where
  abbrev pub total_cmp : F → F → Ordering
  total_cmp a b = compare (f.total_key a) (f.total_key b)

  unfoldable pub sum_f : List F → F
  sum_f [] = f.zero_f
  sum_f (x ∷ xs) = f.add x (sum_f xs)

-- A value of the interface: whole hundredths, with division rounded down.
instance abbrev pub nat_float : Float ℕ
nat_float = record {
  zero_f = 0;
  one_f = 100;
  add = λ a b. a + b;
  sub = λ a b. a - b;
  mul = λ a b. a * b / 100;
  div = λ a b. a * 100 / b;
  max_f = λ a b. if ltb a b then b else a;
  lt = ltb;
  total_key = λ a. a;
  of_nat = λ n. n * 100;
  floor = λ a. a / 100;
  ceil = λ a. (a + 99) / 100;
  round2 = λ a. a;
  three_tenths = 30;
  seven_tenths = 70;
  half_pow = λ a. 100 / 2 ^ (a / 100);
  min_f = λ a b. if ltb a b then a else b;
  le = leb;
  powi = λ a n. a ^ n / 100 ^ (n - 1);
  thousandths = λ n. n / 10;
  as_secs_f64 = λ n. n / 10_000_000;
  from_secs_f64 = λ a. a * 10_000_000;
}
