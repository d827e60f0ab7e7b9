-- ===== src/Logs/Buffer/Lookup.antt =====
-- `lineAt`, `text` and the getters read the retained lines.
use openshift_console.Prelude.{
  ℕ, zero, suc, ◌+◌, ◌-◌, ◌≤◌, ◌<◌, ◌≡◌, List, [], ◌∷◌, map, length, drop, take, get_elem?, get_or,
  arith, refl, sym, ap, ◌∙◌, none, some, ltb, ltb→lt, ltb-false→le, Bool-cases, inl, inr, drop_all,
}
use openshift_console.Prelude.Int.{ℤ, pos, negsuc, ◌+ℤ◌, ◌-ℤ◌, int_laws, +ℤ-zero}
use openshift_console.Prelude.Arrays.{subarray}
use openshift_console.Logs.Buffer.{LogBuffer}
use openshift_console.Logs.Buffer.Read.{
  line_at, cell_text, collect, buffer_text, text_of_lines, line_count, end_seq,
}
use openshift_console.Logs.Buffer.View.{zip_extents, live, lines, extent_text, IsStored, IsValid}
use openshift_console.Logs.Buffer.Evict.{length-lines}

module _ {ℓ} {A : Type ℓ} where
  get_elem?-take : (n k : ℕ) (xs : List A) → k < n → get_elem? (take n xs) k ≡ get_elem? xs k
  get_elem?-take zero k xs h = absurd (omega arith)
  get_elem?-take (suc n) k [] h = refl
  get_elem?-take (suc n) zero (x ∷ xs) h = refl
  get_elem?-take (suc n) (suc k) (x ∷ xs) h = get_elem?-take n k xs (omega arith)

  get_elem?-drop :
      (n k m : ℕ) (xs : List A) (d : A)
      → m ≡ n + k
      → m < length xs
      → get_elem? (drop n xs) k ≡ some (get_or xs m d)
  get_elem?-drop n k m [] d e h = absurd (omega arith)
  get_elem?-drop zero zero zero (x ∷ xs) d e h = refl
  get_elem?-drop zero zero (suc m) (x ∷ xs) d e h = absurd (omega arith)
  get_elem?-drop zero (suc k) zero (x ∷ xs) d e h = absurd (omega arith)
  get_elem?-drop zero (suc k) (suc m) (x ∷ xs) d e h =
      get_elem?-drop zero k m xs d (omega arith) (omega arith)
  get_elem?-drop (suc n) k zero (x ∷ xs) d e h = absurd (omega arith)
  get_elem?-drop (suc n) k (suc m) (x ∷ xs) d e h =
      get_elem?-drop n k m xs d (omega arith) (omega arith)

  get_elem?_beyond : (xs : List A) (k : ℕ) → length xs ≤ k → get_elem? xs k ≡ none
  get_elem?_beyond [] k h = refl
  get_elem?_beyond (x ∷ xs) zero h = absurd (omega arith)
  get_elem?_beyond (x ∷ xs) (suc k) h = get_elem?_beyond xs k (omega arith)

  drop_step :
      (k : ℕ) (xs : List A) (x : A) → get_elem? xs k ≡ some x → drop k xs ≡ x ∷ drop (suc k) xs
  drop_step k [] x e = cc
  drop_step zero (y ∷ ys) x e = ap (λ (t : A). t ∷ ys) (cc)
  drop_step (suc k) (y ∷ ys) x e = drop_step k ys x e

module _ {ℓ κ} {A : Type ℓ} {B : Type κ} where
  get_elem?-map :
      (f : A → B) (xs : List A) (k : ℕ) (x : A)
      → get_elem? xs k ≡ some x
      → get_elem? (map f xs) k ≡ some (f x)
  get_elem?-map f [] k x e = cc
  get_elem?-map f (y ∷ ys) zero x e = let same : y ≡ x = cc in ap some (ap f same)
  get_elem?-map f (y ∷ ys) (suc k) x e = get_elem?-map f ys k x e

get_elem?-zip_extents :
    (ps ss es : List ℕ) (k p s e : ℕ)
    → get_elem? ps k ≡ some p
    → get_elem? ss k ≡ some s
    → get_elem? es k ≡ some e
    → get_elem? (zip_extents ps ss es) k ≡ some (record { page = p; start = s; end = e })
unfolding zip_extents
get_elem?-zip_extents [] ss es k p s e h i j = cc
get_elem?-zip_extents (x ∷ ps) [] es k p s e h i j = cc
get_elem?-zip_extents (x ∷ ps) (y ∷ ss) [] k p s e h i j = cc
get_elem?-zip_extents (x ∷ ps) (y ∷ ss) (z ∷ es) zero p s e h i j = ground arith
get_elem?-zip_extents (x ∷ ps) (y ∷ ss) (z ∷ es) (suc k) p s e h i j =
    get_elem?-zip_extents ps ss es k p s e h i j

module _ (b : LogBuffer) (v : IsStored b) (k : ℕ) where
  cell :
      (a : List ℕ)
      → length a ≡ length b.page_of
      → k < b.used - b.base
      → get_elem? (subarray a b.base b.used) k ≡ some (get_or a (b.base + k) 0)
  cell a e h =
      get_elem?-take (b.used - b.base) k (drop b.base a) h
      ∙ get_elem?-drop b.base k (b.base + k) a 0 refl (omega (arith, v.in_cells))

  line_in : k < b.used - b.base → get_elem? (lines b) k ≡ some (cell_text b (b.base + k))
  unfolding lines live cell_text
  line_in h = get_elem?-map (extent_text b.pages) _ k _ (
      get_elem?-zip_extents _ _ _ k _ _ _ (cell b.page_of refl h) (cell b.start_at v.starts h)
        (cell b.end_at v.ends h))

offset : (a : ℤ) (k : ℕ) → a +ℤ pos k -ℤ a ≡ pos k
offset a k = omega int_laws

offset_below : (a : ℤ) (k : ℕ) → a -ℤ pos (suc k) -ℤ a ≡ negsuc k
offset_below a k = omega int_laws

-- `lineAt` by sequence numbers, counted from `firstSeq` on and below it.
pub line_at-lines :
    (b : LogBuffer) (k : ℕ)
    → IsValid b
    → (line_at b (b.base_seq +ℤ pos k) ≡ get_elem? (lines b) k)
      × (line_at b (b.base_seq -ℤ pos (suc k)) ≡ none)
unfolding line_at
line_at-lines b k v = (
  rw (offset b.base_seq k, line_at)
      (elim (Bool-cases (ltb (b.base + k) b.used)) [
        | inl inside ↦ rw inside (sym (line_in b v.stored k (omega (arith, ltb→lt _ _ inside))))
        | inr outside ↦ rw outside (
            sym (
              get_elem?_beyond (lines b) k
                (omega (arith, length-lines b v.stored, ltb-false→le _ _ outside))))
      ]),
  rw (offset_below b.base_seq k, line_at),
)

add_one : (a : ℤ) (k : ℕ) → a +ℤ pos k +ℤ pos 1 ≡ a +ℤ pos (suc k)
add_one a k = omega int_laws

next : (a seq : ℤ) (k : ℕ) → seq ≡ a +ℤ pos k → seq +ℤ pos 1 ≡ a +ℤ pos (suc k)
next a seq k e = rw e (add_one a k)

-- The loop of `text` reads the lines from the k-th on.
collect-lines :
    (b : LogBuffer) (v : IsValid b) (n k : ℕ) (seq : ℤ)
    → k + n ≡ length (lines b)
    → seq ≡ b.base_seq +ℤ pos k
    → collect b n seq ≡ drop k (lines b)
unfolding collect
collect-lines b v zero k seq e at = sym (drop_all k (lines b) (omega arith))
collect-lines b v (suc n) k seq e at =
    let found = line_in b v.stored k (omega (arith, length-lines b v.stored)) in
    let read : line_at b seq ≡ some (cell_text b (b.base + k)) =
      ap (line_at b) at ∙ (line_at-lines b k v).0 ∙ found in
    rw (read, collect)
      (ap (λ t. cell_text b (b.base + k) ∷ t)
          (collect-lines b v n (suc k) (seq +ℤ pos 1) (omega arith) (next b.base_seq seq k at))
        ∙ sym (drop_step k (lines b) _ found))

buffer_text-lines :
    (b : LogBuffer)
    → IsValid b
    → (buffer_text b ≡ text_of_lines (lines b))
      × (line_count b ≡ length (lines b))
      × (end_seq b ≡ b.base_seq +ℤ pos (length (lines b)))
unfolding buffer_text line_count end_seq
buffer_text-lines b v = (
  ap text_of_lines (
      collect-lines b v (b.used - b.base) 0 b.base_seq (omega (arith, length-lines b v.stored))
        (sym (+ℤ-zero b.base_seq))),
  sym (length-lines b v.stored),
  ap (λ n. b.base_seq +ℤ pos n) (sym (length-lines b v.stored)),
)

-- In a valid buffer `lineAt` finds each retained line under its own sequence number, counted from
-- `firstSeq`, and nothing under any other number; the text for download is the retained lines, each
-- with a line break behind it; and the getters count them: `endSeq` is `firstSeq` and the number of
-- lines.
pub readers-lines :
    (b : LogBuffer) (k : ℕ)
    → IsValid b
    → (line_at b (b.base_seq +ℤ pos k) ≡ get_elem? (lines b) k)
      × (line_at b (b.base_seq -ℤ pos (suc k)) ≡ none)
      × (buffer_text b ≡ text_of_lines (lines b))
      × (line_count b ≡ length (lines b))
      × (end_seq b ≡ b.base_seq +ℤ pos (length (lines b)))
readers-lines b k v =
    let (found, missing) = line_at-lines b k v in
    let (text, count, last) = buffer_text-lines b v in (found, missing, text, count, last)
