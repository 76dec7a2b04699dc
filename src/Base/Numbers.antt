-- ===== src/Base/Numbers.antt =====
-- Differences modulo a number, as Python computes them.
use Prim.Native.Nat.{ℕ, ◌+◌, ◌-◌, ◌*◌, ◌/◌, ◌%◌, ◌<◌}
use mathlib.Core.Path.{◌≡◌, sym, ap, ◌∙◌}
use native.Mathlib.Omega.{arith}
use native.Mathlib.Nat.{
  mod-add-mod, mod-mod, mod-lt, mod-eq_of_lt, div-add-mod, add-mul-mod_self_left,
}

-- `(a - b) % m`, which in Python is never negative.
unfoldable pub sub_mod : ℕ → ℕ → ℕ → ℕ
sub_mod a b m = (a + (m - b % m)) % m

pub sub_mod-lt : (a b m : ℕ) → 0 < m → sub_mod a b m < m
unfolding sub_mod
sub_mod-lt a b m h = mod-lt (a + (m - b % m)) h

whole_turns : (a b m : ℕ) → 0 < m → (a + (m - b % m) + b) % m ≡ a % m
whole_turns a b m h =
    ap (λ (t : ℕ). t % m) (omega (arith, div-add-mod b m, mod-lt b h, one_more))
    ∙ add-mul-mod_self_left a m (1 + b / m)
  where
    one_more : m * (1 + b / m) ≡ m + m * (b / m)
    one_more = omega arith

pub sub_mod-add : (a b m : ℕ) → 0 < m → (sub_mod a b m + b) % m ≡ a % m
unfolding sub_mod
sub_mod-add a b m h = mod-add-mod (a + (m - b % m)) m b ∙ whole_turns a b m h

pub add-sub_mod : (a b m : ℕ) → 0 < m → sub_mod (a + b) b m ≡ a % m
unfolding sub_mod
add-sub_mod a b m h = ap (λ (t : ℕ). t % m) (omega arith) ∙ whole_turns a b m h

pub sub_mod-mod_left : (a b m : ℕ) → sub_mod (a % m) b m ≡ sub_mod a b m
unfolding sub_mod
sub_mod-mod_left a b m = mod-add-mod a m (m - b % m)

pub sub_mod-mod_right : (a b m : ℕ) → sub_mod a (b % m) m ≡ sub_mod a b m
unfolding sub_mod
sub_mod-mod_right a b m = ap (λ (t : ℕ). (a + (m - t)) % m) (mod-mod b m)

-- Taking the difference from the minuend gives the subtrahend.
pub sub_mod_involutive : (a b m : ℕ) → 0 < m → b < m → sub_mod a (sub_mod a b m) m ≡ b
sub_mod_involutive a b m h small =
    sym (sub_mod-mod_left a (sub_mod a b m) m)
    ∙ ap (λ (t : ℕ). sub_mod t (sub_mod a b m) m)
        (sym (sub_mod-add a b m h) ∙ ap (λ (t : ℕ). t % m) (omega arith))
    ∙ sub_mod-mod_left (b + sub_mod a b m) (sub_mod a b m) m
    ∙ add-sub_mod b (sub_mod a b m) m h
    ∙ mod-eq_of_lt small
