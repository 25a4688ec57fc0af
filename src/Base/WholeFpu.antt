-- ===== src/Base/WholeFpu.antt =====
-- A processor whose doubles hold natural numbers only, for tests.
use contextsnap.Base.{leb, ltb, ℕ, ◌*◌, ◌+◌, ◌-◌, ◌/◌, ◌==◌, ◌^◌}
use contextsnap.Base.Int.{pos, pos_part}
use contextsnap.Base.Double.{Double, Fpu, bits}

abbrev pub number : Double → ℕ
number (bits n) = n

abbrev pub whole_fpu : Fpu
whole_fpu = record {
  add = λ a b. bits (number a + number b);
  sub = λ a b. bits (number a - number b);
  mul = λ a b. bits (number a * number b);
  div = λ a b. bits (number a / number b);
  sqrt = λ a. bits 0;
  log2 = λ a. bits 0;
  of_int = λ z. bits (pos_part z);
  lround = λ a. pos (number a);
  decimal = λ m k. bits (m / 10 ^ k);
  lt = λ a b. ltb (number a) (number b);
  le = λ a b. leb (number a) (number b);
  eq = λ a b. number a == number b;
}
