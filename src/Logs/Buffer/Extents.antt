-- ===== src/Logs/Buffer/Extents.antt =====
-- Lists of extents: how they append, drop and count.
use openshift_console.Prelude.{
  All, ℕ, zero, suc, ◌+◌, ◌≡◌, List, [], ◌∷◌, ◌++◌, length, drop, arith, refl, ap, map,
}
use mathlib.Core.Path.{ap₂}
use openshift_console.Logs.Buffer.View.{Extent, zip_extents, count_page}

-- Rows of three arrays with one length.
pub zip_extents-append :
    (ps ss es ps' ss' es' : List ℕ)
    → length ss ≡ length ps
    → length es ≡ length ps
    → zip_extents (ps ++ ps') (ss ++ ss') (es ++ es')
      ≡ zip_extents ps ss es ++ zip_extents ps' ss' es'
unfolding zip_extents
zip_extents-append [] [] [] ps' ss' es' h k = refl
zip_extents-append [] (s ∷ ss) es ps' ss' es' h k = absurd (omega arith)
zip_extents-append [] [] (e ∷ es) ps' ss' es' h k = absurd (omega arith)
zip_extents-append (p ∷ ps) [] es ps' ss' es' h k = absurd (omega arith)
zip_extents-append (p ∷ ps) (s ∷ ss) [] ps' ss' es' h k = absurd (omega arith)
zip_extents-append (p ∷ ps) (s ∷ ss) (e ∷ es) ps' ss' es' h k =
    ap (λ (t : List Extent). record { page = p; start = s; end = e } ∷ t)
      (zip_extents-append ps ss es ps' ss' es' (omega arith) (omega arith))

pub length-zip_extents :
    (ps ss es : List ℕ)
    → length ss ≡ length ps
    → length es ≡ length ps
    → length (zip_extents ps ss es) ≡ length ps
unfolding zip_extents
length-zip_extents [] ss es h k = refl
length-zip_extents (p ∷ ps) [] es h k = absurd (omega arith)
length-zip_extents (p ∷ ps) (s ∷ ss) [] h k = absurd (omega arith)
length-zip_extents (p ∷ ps) (s ∷ ss) (e ∷ es) h k =
    omega (arith, length-zip_extents ps ss es (omega arith) (omega arith))

pub drop-zip_extents :
    (n : ℕ) (ps ss es : List ℕ)
    → length ss ≡ length ps
    → length es ≡ length ps
    → zip_extents (drop n ps) (drop n ss) (drop n es) ≡ drop n (zip_extents ps ss es)
unfolding zip_extents
drop-zip_extents zero ps ss es h k = refl
drop-zip_extents (suc n) [] [] [] h k = refl
drop-zip_extents (suc n) [] (s ∷ ss) es h k = absurd (omega arith)
drop-zip_extents (suc n) [] [] (e ∷ es) h k = absurd (omega arith)
drop-zip_extents (suc n) (p ∷ ps) [] es h k = absurd (omega arith)
drop-zip_extents (suc n) (p ∷ ps) (s ∷ ss) [] h k = absurd (omega arith)
drop-zip_extents (suc n) (p ∷ ps) (s ∷ ss) (e ∷ es) h k =
    drop-zip_extents n ps ss es (omega arith) (omega arith)

pub count_page-append :
    (p : ℕ) (xs ys : List Extent) → count_page p (xs ++ ys) ≡ count_page p xs + count_page p ys
unfolding count_page
count_page-append p [] ys = omega arith
count_page-append p (x ∷ xs) ys = omega (arith, count_page-append p xs ys)

module _ {ℓ κ} {A : Type ℓ} (P : A → Type κ) where
  pub All-append : (xs ys : List A) → All P xs → All P ys → All P (xs ++ ys)
  All-append [] ys h k = k
  All-append (x ∷ xs) ys (p, h) k = (p, All-append xs ys h k)

  pub All-drop : (n : ℕ) (xs : List A) → All P xs → All P (drop n xs)
  All-drop zero xs h = h
  All-drop (suc n) [] h = tt
  All-drop (suc n) (x ∷ xs) (p, h) = All-drop n xs h

module _ {ℓ κ κ'} {A : Type ℓ} {P : A → Type κ} {Q : A → Type κ'} where
  pub All-map : (xs : List A) → ((x : A) → P x → Q x) → All P xs → All Q xs
  All-map [] f h = tt
  All-map (x ∷ xs) f (p, h) = (f x p, All-map xs f h)

module _ {ℓ κ} {A : Type ℓ} {B : Type κ} where
  pub map-drop : (f : A → B) (n : ℕ) (xs : List A) → map f (drop n xs) ≡ drop n (map f xs)
  map-drop f zero xs = refl
  map-drop f (suc n) [] = refl
  map-drop f (suc n) (x ∷ xs) = map-drop f n xs

  -- Two functions that agree where `P` holds agree on a list of such elements.
  pub map-congr {κ'} :
      (P : A → Type κ') (f g : A → B) (xs : List A)
      → ((x : A) → P x → f x ≡ g x)
      → All P xs
      → map f xs ≡ map g xs
  map-congr P f g [] e h = refl
  map-congr P f g (x ∷ xs) e (p, h) = ap₂ ◌∷◌ (e x p) (map-congr P f g xs e h)

  pub length-map : (f : A → B) (xs : List A) → length (map f xs) ≡ length xs
  length-map f [] = refl
  length-map f (x ∷ xs) = ap suc (length-map f xs)
