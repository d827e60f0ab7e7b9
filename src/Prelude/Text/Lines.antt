-- ===== src/Prelude/Text/Lines.antt =====
-- How `indexOf` and `split` read a text.
use Prim.Native.Nat.{ℕ, suc, ◌+◌, ◌≤◌, ◌<◌}
use mathlib.Core.Path.{◌≡◌, refl, sym, ap, ◌∙◌}
use mathlib.Core.Logic.{◌⊎◌, inl, inr}
use mathlib.Core.Bool.{false}
use mathlib.Core.List.{List, [], ◌∷◌, ◌++◌}
use mathlib.Core.Option.{none, some}
use native.Mathlib.Omega.{arith}
use openshift_console.Prelude.Tests.{◌==◌, Bool-cases, ==_iff}
use openshift_console.Prelude.Lists.{length, drop, drop-drop, length-append, length-drop}
use openshift_console.Prelude.Text.{
  Text, Lacks, find, index_of, split, cons_head, front_parts, last_part,
}

-- A first occurrence cuts a text in two.
pub record IsCut (c : ℕ) (s : Text) (i : ℕ) : Type 0 where
  pub before : Text
  pub behind : Text
  pub whole : s ≡ before ++ c ∷ behind
  pub at : length before ≡ i
  pub lacks : Lacks c before

find-cases :
    (c : ℕ) (s : Text)
    → ((find c s ≡ none) × Lacks c s) ⊎ ((i : ℕ) × (find c s ≡ some i) × IsCut c s i)
unfolding find
find-cases c [] = inl (refl, tt)
find-cases c (x ∷ s) = elim (Bool-cases (x == c)) [
  | inl same ↦ inr (
    0,
    rw same,
    record {
      before = [];
      behind = s;
      whole = ap (λ (d : ℕ). d ∷ s) ((==_iff x c).0 same);
      at = refl;
      lacks = tt;
    },
  )
  | inr other ↦ elim (find-cases c s) [
    | inl (missing, lacks) ↦ inl (rw (other, missing), (other, lacks))
    | inr (i, found, cut) ↦ inr (
      suc i,
      rw (other, found),
      record {
        before = x ∷ cut.before;
        behind = cut.behind;
        whole = ap (λ (t : Text). x ∷ t) cut.whole;
        at = ap suc cut.at;
        lacks = (other, cut.lacks);
      },
    )
  ]
]

pub drop-append_self : (p s : Text) (c : ℕ) → drop (suc (length p)) (p ++ c ∷ s) ≡ s
drop-append_self [] s c = refl
drop-append_self (x ∷ p) s c = drop-append_self p s c

-- What `indexOf` returns: the character is missing from there on, or the text reads on to it.
pub index_of-cases :
    (s : Text) (c from : ℕ)
    → from ≤ length s
    → ((index_of s c from ≡ none) × Lacks c (drop from s))
      ⊎ ((nl : ℕ) × (mid : Text) × (index_of s c from ≡ some nl)
          × (drop from s ≡ mid ++ c ∷ drop (suc nl) s)
          × Lacks c mid
          × (nl ≡ from + length mid)
          × (nl < length s))
unfolding index_of
index_of-cases s c from h = elim (find-cases c (drop from s)) [
  | inl (missing, lacks) ↦ inl (rw missing, lacks)
  | inr (i, found, cut) ↦ inr (
    from + i,
    cut.before,
    rw found,
    cut.whole
        ∙ ap (λ (t : Text). cut.before ++ c ∷ t)
            (sym (drop-append_self cut.before cut.behind c)
              ∙ ap (drop (suc (length cut.before))) (sym cut.whole)
              ∙ drop-drop (suc (length cut.before)) from (suc (from + i)) s
                  (omega (arith, cut.at))),
    cut.lacks,
    omega (arith, cut.at),
    omega (
      arith,
      cut.at,
      ap length cut.whole,
      length-drop from s,
      length-append cut.before (c ∷ cut.behind),
    ),
  )
]

module _ (sep : ℕ) where
  pub split-eq_single : (s : Text) → Lacks sep s → split sep s ≡ s ∷ []
  unfolding split
  split-eq_single [] h = refl
  split-eq_single (c ∷ s) (other, h) = rw (other, split-eq_single s h)

  pub split-append_sep :
      (p rest : Text) → Lacks sep p → split sep (p ++ sep ∷ rest) ≡ p ∷ split sep rest
  unfolding split
  split-append_sep [] rest h = ground arith
  split-append_sep (c ∷ p) rest (other, h) = rw (other, split-append_sep p rest h)

  pub split-cases : (s : Text) → (p : Text) × (ps : List Text) × (split sep s ≡ p ∷ ps)
  unfolding split
  split-cases [] = ([], [], refl)
  split-cases (c ∷ s) = elim (Bool-cases (c == sep)) [
    | inl same ↦ ([], split sep s, rw same)
    | inr other ↦ let (p, ps, e) = split-cases s in (c ∷ p, ps, rw (other, e))
  ]

  split-append_other :
      (c : ℕ) (s t p : Text) (ps : List Text)
      → (c == sep) ≡ false
      → split sep s ≡ p ∷ ps
      → split sep (s ++ t) ≡ front_parts (p ∷ ps) ++ split sep (last_part (p ∷ ps) ++ t)
      → cons_head c (split sep (s ++ t))
        ≡ front_parts ((c ∷ p) ∷ ps) ++ split sep (last_part ((c ∷ p) ∷ ps) ++ t)
  unfolding split
  split-append_other c s t p [] other e ih = rw (ih, other)
  split-append_other c s t p (q ∷ qs) other e ih = rw ih

  -- Splitting a longer text goes on from the last part.
  pub split-append :
      (s t : Text)
      → split sep (s ++ t) ≡ front_parts (split sep s) ++ split sep (last_part (split sep s) ++ t)
  unfolding split
  split-append [] t = refl
  split-append (c ∷ s) t =
      let (p, ps, e) = split-cases s in
      let ih : split sep (s ++ t) ≡ front_parts (p ∷ ps) ++ split sep (last_part (p ∷ ps) ++ t) =
        rw e at (split-append s t) in
      elim (Bool-cases (c == sep)) [
        | inl same ↦ rw (same, e) (ap (λ (l : List Text). [] ∷ l) ih)
        | inr other ↦ rw (other, e) (split-append_other c s t p ps other e ih)
      ]

  last_part-Lacks_cons :
      (c : ℕ) (p : Text) (ps : List Text)
      → (c == sep) ≡ false
      → Lacks sep (last_part (p ∷ ps))
      → Lacks sep (last_part ((c ∷ p) ∷ ps))
  last_part-Lacks_cons c p [] other h = (other, h)
  last_part-Lacks_cons c p (q ∷ qs) other h = h

  pub last_part-split-Lacks : (s : Text) → Lacks sep (last_part (split sep s))
  unfolding split
  last_part-split-Lacks [] = tt
  last_part-split-Lacks (c ∷ s) =
      let (p, ps, e) = split-cases s in
      let ih : Lacks sep (last_part (p ∷ ps)) = rw e at (last_part-split-Lacks s) in
      elim (Bool-cases (c == sep)) [
        | inl same ↦ rw (same, e) ih
        | inr other ↦ rw (other, e) (last_part-Lacks_cons c p ps other ih)
      ]

pub front_parts-append {ℓ} :
    {A : Type ℓ} (xs : List A) (p : A) (ps : List A)
    → front_parts (xs ++ p ∷ ps) ≡ xs ++ front_parts (p ∷ ps)
front_parts-append [] p ps = refl
front_parts-append {A} (x ∷ []) p ps = refl
front_parts-append {A} (x ∷ y ∷ xs) p ps =
    ap (λ (t : List A). x ∷ t) (front_parts-append (y ∷ xs) p ps)

pub last_part-append :
    (xs : List Text) (p : Text) (ps : List Text) → last_part (xs ++ p ∷ ps) ≡ last_part (p ∷ ps)
last_part-append [] p ps = refl
last_part-append (x ∷ []) p ps = refl
last_part-append (x ∷ y ∷ xs) p ps = last_part-append (y ∷ xs) p ps
