-- ===== src/ControlPanel/Framing.antt =====
-- The responses of the control panel.
use spu_energy_efficient_sys.Common.{
  ℕ, suc, ◌+◌, ◌-◌, ◌*◌, ◌≡◌, refl, ap, [], ◌∷◌, ◌++◌, take, drop, length, ◌<◌, arith, lt→ltb,
}
use spu_energy_efficient_sys.ControlPanel.{Text, newline, leading, four_digits, frame}

-- The number that some digits are, read from the left, behind the number `n`.
abbrev pub number : ℕ → Text → ℕ
number n [] = n
number n (c ∷ cs) = number (10 * n + (c - 48)) cs

four_digits_lem : (n : ℕ) → n < 10000 → number 0 (four_digits n) ≡ n
unfolding four_digits
four_digits_lem n h = omega arith

leading_small : (k n : ℕ) → n < 10000 → leading (suc k) n ≡ n
unfolding leading
leading_small k n h = rw (lt→ltb n 10000 h) refl

frame_small :
    (r : Text) → length r < 10000 → frame r ≡ four_digits (length r) ++ (r ++ (newline ∷ []))
unfolding frame
frame_small r h = ap (λ n. four_digits n ++ (r ++ (newline ∷ []))) (leading_small 5 (length r) h)

take-four_digits : (n : ℕ) (xs : Text) → take 4 (four_digits n ++ xs) ≡ four_digits n
unfolding four_digits
take-four_digits n xs = refl

drop-four_digits : (n : ℕ) (xs : Text) → drop 4 (four_digits n ++ xs) ≡ xs
unfolding four_digits
drop-four_digits n xs = refl

-- A response of less than 10000 characters can be read back: the first four characters of what is
-- printed are its length, and behind them stands the response and a newline.
pub frame_lem :
    (r : Text)
    → length r < 10000
    → (number 0 (take 4 (frame r)) ≡ length r) × (drop 4 (frame r) ≡ r ++ (newline ∷ []))
frame_lem r h =
    let xs = r ++ (newline ∷ []) in
    (
      rw (frame_small r h, take-four_digits (length r) xs) (four_digits_lem (length r) h),
      rw (frame_small r h) (drop-four_digits (length r) xs),
    )
