-- ===== src/Prelude/Arrays.antt =====
-- Typed arrays as lists of a fixed length, with the built-in methods that the code calls.
use Prim.Native.Nat.{ℕ, zero, suc, ◌+◌, ◌-◌, ◌≤◌, ◌<◌}
use mathlib.Core.Path.{◌≡◌, refl, sym, ap, ◌∙◌}
use mathlib.Core.List.{List, [], ◌∷◌, ◌++◌, append-nil}
use native.Mathlib.Omega.{arith}
use openshift_console.Prelude.Lists.{
  length, set, get_or, take, drop, length-append, length-drop, length-take, take-append,
  drop-append, take-append_more, drop-append_more, drop-drop, drop-take,
}

module _ {ℓ} {A : Type ℓ} where
  -- `a.subarray(from, to)`.
  abbrev pub subarray : List A → ℕ → ℕ → List A
  subarray a from to = take (to - from) (drop from a)

  -- `a.set(src, at)`: the cells from `at` on are overwritten by those of `src`.
  unfoldable pub write_at : List A → List A → ℕ → List A
  write_at a src at = take at a ++ (src ++ drop (at + length src) a)

  -- `a.copyWithin(0, from, to)`.
  unfoldable pub copy_to_front : List A → ℕ → ℕ → List A
  unfolding write_at
  copy_to_front a from to = write_at a (subarray a from to) 0

sub_zero : (n : ℕ) → n - 0 ≡ n
sub_zero n = omega arith

sub_one : (n : ℕ) → suc n - 1 ≡ n
sub_one n = omega arith

suc-sub-suc : (m n : ℕ) → suc m - suc n ≡ m - n
suc-sub-suc m n = omega arith

module _ {ℓ} {A : Type ℓ} where
  pub length-subarray :
      (a : List A) (from to : ℕ)
      → from ≤ to
      → to ≤ length a
      → length (subarray a from to) ≡ to - from
  length-subarray a from to h k =
      length-take (to - from) (drop from a) (omega (arith, length-drop from a))

  pub length-write_at :
      (a src : List A) (at : ℕ) → at + length src ≤ length a → length (write_at a src at) ≡ length a
  unfolding write_at
  length-write_at a src at h = omega (
    arith,
    length-append (take at a) (src ++ drop (at + length src) a),
    length-append src (drop (at + length src) a),
    length-take at a (omega arith),
    length-drop (at + length src) a,
  )

  pub subarray-write_at :
      (a src : List A) (at to : ℕ)
      → at + length src ≤ length a
      → to ≡ at + length src
      → subarray (write_at a src at) at to ≡ src
  unfolding write_at
  subarray-write_at a src at to h e =
      let e' : drop at (write_at a src at) ≡ src ++ drop (at + length src) a =
        drop-append_more (take at a) _ at 0 (omega (arith, length-take at a (omega arith))) in
      ap (take (to - at)) e'
      ∙ take-append_more src (drop (at + length src) a) (to - at) 0 (omega arith)
      ∙ append-nil src

  take-set_end :
      (a : List A) (n : ℕ) (v : A) → n < length a → take (suc n) (set a n v) ≡ take n a ++ (v ∷ [])
  take-set_end [] n v h = absurd (omega arith)
  take-set_end (x ∷ xs) zero v h = refl
  take-set_end (x ∷ xs) (suc n) v h = ap (λ (t : List A). x ∷ t) (take-set_end xs n v (omega arith))

  drop-set :
      (a : List A) (from i k : ℕ) (v : A)
      → i ≡ from + k
      → drop from (set a i v) ≡ set (drop from a) k v
  drop-set a zero i k v h = ap (λ (t : ℕ). set a t v) (omega arith)
  drop-set [] (suc from) i k v h = refl
  drop-set (x ∷ xs) (suc from) zero k v h = absurd (omega arith)
  drop-set (x ∷ xs) (suc from) (suc i) k v h = drop-set xs from i k v (omega arith)

  drop-set_before :
      (a : List A) (from i : ℕ) (v : A) → i < from → drop from (set a i v) ≡ drop from a
  drop-set_before a zero i v h = absurd (omega arith)
  drop-set_before [] (suc from) i v h = refl
  drop-set_before (x ∷ xs) (suc from) zero v h = refl
  drop-set_before (x ∷ xs) (suc from) (suc i) v h = drop-set_before xs from i v (omega arith)

  -- A write just past the end of a window adds one element to it.
  pub subarray-set :
      (a : List A) (from to : ℕ) (v : A)
      → from ≤ to
      → to < length a
      → subarray (set a to v) from (suc to) ≡ subarray a from to ++ (v ∷ [])
  subarray-set a from to v h k =
      ap (λ (n : ℕ). take n (drop from (set a to v))) {x = suc to - from} {y = suc (to - from)}
        (omega arith)
      ∙ ap (take (suc (to - from))) (drop-set a from to (to - from) v (omega arith))
      ∙ take-set_end (drop from a) (to - from) v (omega (arith, length-drop from a))

  take-append-take :
      (m k n : ℕ) (xs : List A) → n ≡ m + k → take m xs ++ take k (drop m xs) ≡ take n xs
  take-append-take zero k n xs h = ap (λ (t : ℕ). take t xs) (omega arith)
  take-append-take (suc m) k zero xs h = absurd (omega arith)
  take-append-take (suc m) zero (suc n) [] h = refl
  take-append-take (suc m) (suc k) (suc n) [] h = refl
  take-append-take (suc m) k (suc n) (x ∷ xs) h =
      ap (λ (t : List A). x ∷ t) (take-append-take m k n xs (omega arith))

  -- A window is cut in two at any point inside it.
  pub subarray-append-subarray :
      (a : List A) (from mid to : ℕ)
      → from ≤ mid
      → mid ≤ to
      → subarray a from mid ++ subarray a mid to ≡ subarray a from to
  subarray-append-subarray a from mid to h k =
      ap (λ t. subarray a from mid ++ take (to - mid) t)
        (sym (drop-drop (mid - from) from mid a (omega arith)))
      ∙ take-append-take (mid - from) (to - mid) (to - from) (drop from a) (omega arith)

  -- A write before a window leaves it as it is.
  pub subarray-set_before :
      (a : List A) (i from to : ℕ) (v : A)
      → i < from
      → subarray (set a i v) from to ≡ subarray a from to
  subarray-set_before a i from to v h = ap (take (to - from)) (drop-set_before a from i v h)

  -- Dropping from the front of a window moves its start.
  pub drop-subarray :
      (n : ℕ) (a : List A) (from to : ℕ)
      → from + n ≤ to
      → subarray a (from + n) to ≡ drop n (subarray a from to)
  drop-subarray n a from to h =
      ap (take (to - (from + n))) (sym (drop-drop n from (from + n) a (omega arith)))
      ∙ sym (drop-take n (to - from) (to - (from + n)) (drop from a) (omega arith))

  -- A larger array with the old one at its front shows the same window.
  pub subarray-append :
      (a b : List A) (from to : ℕ)
      → to ≤ length a
      → from ≤ to
      → subarray (a ++ b) from to ≡ subarray a from to
  subarray-append a b from to h k =
      ap (take (to - from)) (drop-append from a b (omega arith))
      ∙ take-append (to - from) (drop from a) b (omega (arith, length-drop from a))

  -- A window that is not empty begins with its first cell.
  pub subarray-cons :
      (a : List A) (from to : ℕ) (d : A)
      → from < to
      → to ≤ length a
      → subarray a from to ≡ get_or a from d ∷ subarray a (suc from) to
  subarray-cons [] from to d h k = absurd (omega arith)
  subarray-cons (x ∷ xs) from zero d h k = absurd (omega arith)
  subarray-cons (x ∷ xs) zero (suc to) d h k = rw (sub_zero (suc to), sub_one to)
  subarray-cons (x ∷ xs) (suc from) (suc to) d h k =
      rw (suc-sub-suc to from, suc-sub-suc to (suc from))
        (subarray-cons xs from to d (omega arith) (omega arith))
