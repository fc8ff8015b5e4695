-- ===== src/Base/Modular.antt =====
-- Powers and remainders: what modular exponentiation rests on.
use Prim.Native.Nat.{ℕ, zero, suc, ◌+◌, ◌*◌, ◌%◌, ◌/◌, ◌^◌}
use mathlib.Core.Path.{◌≡◌, ap, ◌∙◌, sym}
use native.Mathlib.Omega.{arith}
use native.Mathlib.Nat.{pow-suc, pow-zero, mul_comm, mul-zero, add-mul-mod_self_left, div-add-mod}

pub pow-add : (g m n : ℕ) → g ^ (m + n) ≡ g ^ m * g ^ n
pow-add g m zero = let e : m + 0 ≡ m = omega arith in rw (e, pow-zero) (omega arith)
pow-add g m (suc n) =
    let e : m + suc n ≡ suc (m + n) = omega arith in
    rw (e, pow-suc, pow-suc, pow-add g m n) (omega arith)

pub pow-mul : (g m n : ℕ) → (g ^ m) ^ n ≡ g ^ (m * n)
pow-mul g m zero = rw (mul-zero, pow-zero, pow-zero)
pow-mul g m (suc n) =
    let e : m * suc n ≡ m * n + m = omega arith in rw (e, pow-suc, pow-add, pow-mul g m n)

pub mul-pow : (x y n : ℕ) → (x * y) ^ n ≡ x ^ n * y ^ n
mul-pow x y zero = rw (pow-zero, pow-zero, pow-zero)
mul-pow x y (suc n) = rw (pow-suc (x * y) n, pow-suc x n, pow-suc y n, mul-pow x y n) (omega arith)

-- A factor may be reduced first.
pub mod-mul-mod : (x y m : ℕ) → (x % m * y) % m ≡ (x * y) % m
mod-mul-mod x y m =
    let e : x * y ≡ x % m * y + m * (x / m * y) =
      omega (arith, ap (λ (t : ℕ). t * y) (div-add-mod x m)) in
    sym (ap (λ t. t % m) e ∙ add-mul-mod_self_left (x % m * y) m (x / m * y))

pub mul-mod-mod : (x y m : ℕ) → (x * (y % m)) % m ≡ (x * y) % m
mul-mod-mod x y m = rw (mul_comm x (y % m), mod-mul-mod, mul_comm y x)

-- So may the base of a power.
pub mod-pow : (x n m : ℕ) → (x % m) ^ n % m ≡ x ^ n % m
mod-pow x zero m = rw (pow-zero, pow-zero)
mod-pow x (suc n) m =
    ap (λ t. t % m) (pow-suc (x % m) n)
    ∙ mul-mod-mod ((x % m) ^ n) x m
    ∙ sym (mod-mul-mod ((x % m) ^ n) x m)
    ∙ ap (λ t. t * x % m) (mod-pow x n m)
    ∙ mod-mul-mod (x ^ n) x m
    ∙ ap (λ t. t % m) (sym (pow-suc x n))
