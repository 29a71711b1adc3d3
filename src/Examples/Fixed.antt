-- ===== src/Examples/Fixed.antt =====
-- An instance of the float interface that runs: thousandths, rounded towards zero.
use wordbit_advanced.Prelude.{
  ℕ, zero, suc, ◌+◌, ◌*◌, ◌/◌, ◌^◌, ◌≡◌, false, arith, ℤ, pos, negsuc, ◌+ℤ◌, ◌-ℤ◌, ◌*ℤ◌, ltb_ℤ,
  leb_ℤ, ◌&&◌,
}
use wordbit_advanced.Float64.{Float64}

abbrev negate : ℕ → ℤ
negate zero = pos 0
negate (suc n) = negsuc n

-- The quotient by a positive number, towards zero.
abbrev quot : ℤ → ℕ → ℤ
quot (pos n) d = pos (n / d)
quot (negsuc n) d = negate ((n + 1) / d)

abbrev divide : ℤ → ℤ → ℤ
divide a (pos d) = quot (a *ℤ pos 1000) d
divide a (negsuc d) = quot (pos 0 -ℤ a *ℤ pos 1000) (d + 1)

abbrev round_up : ℤ → ℤ
round_up (pos n) = pos ((n + 999) / 1000 * 1000)
round_up (negsuc n) = negate ((n + 1) / 1000 * 1000)

abbrev round_half : ℤ → ℤ
round_half (pos n) = pos ((n + 500) / 1000 * 1000)
round_half (negsuc n) = negate ((n + 501) / 1000 * 1000)

instance abbrev pub fixed : Float64 ℤ
fixed = record {
  lt = ltb_ℤ;
  le = leb_ℤ;
  beq = λ a b. leb_ℤ a b && leb_ℤ b a;
  add = ◌+ℤ◌;
  sub = ◌-ℤ◌;
  mul = λ a b. quot (a *ℤ b) 1000;
  div = divide;
  dec = λ n k. pos (n * 1000 / 10 ^ k);
  of_int = λ n. n *ℤ pos 1000;
  to_int = λ a. quot a 1000;
  ceil = round_up;
  round = round_half;
}

pub ltb_ℤ_irrefl : (a : ℤ) → ltb_ℤ a a ≡ false
ltb_ℤ_irrefl a = ground arith
