-- ===== src/Logs/Pagination/Join.antt =====
-- The join of a larger tail with the lines already held.
use openshift_console.Prelude.{
  All, ℕ, zero, suc, ◌+◌, ◌-◌, ◌≤◌, ◌<◌, ◌≡◌, ◌⊎◌, inl, inr, Bool, true, false, List, [], ◌∷◌, ◌++◌,
  Option, none, some, leb, ◌==◌, length, get_or, take, arith, refl, ap, ◌∙◌, Bool-cases,
  Option-cases, length-append, ltb→lt, lt→ltb, leb→le, leb-false→lt, ==_iff,
}
use mathlib.Core.Bool.{and-eq-true_iff}
use openshift_console.Prelude.Text.{Text, same}
use openshift_console.Prelude.Text.Equality.{same_refl}
use openshift_console.Logs.Pagination.{
  is_anchor, candidates, first_anchor, search_join, join_index, earlier_pod_lines,
  join_search_slack,
}

-- The index lies `d` away from the expected one.
abbrev IsAway : ℕ → ℕ → ℕ → Type 0
IsAway expected d i = (i ≡ expected + d) ⊎ (i + d ≡ expected)

module _ (test : Option ℕ → Bool) (expected : ℕ) (below : test none ≡ false) where
  found_at :
      (offset i : ℕ)
      → first_anchor test (candidates expected offset) ≡ some i
      → test (some i) ≡ true
  unfolding first_anchor candidates
  found_at offset i h = ground (arith, below)

  none_at :
      (offset i : ℕ)
      → first_anchor test (candidates expected offset) ≡ none
      → IsAway expected offset i
      → test (some i) ≡ false
  unfolding first_anchor candidates
  none_at offset i h away = grind (arith, below)

  search_sound :
      (n offset i : ℕ) → search_join test expected n offset ≡ some i → test (some i) ≡ true
  unfolding search_join
  search_sound zero offset i h = cc
  search_sound (suc n) offset i h =
      elim (Option-cases (first_anchor test (candidates expected offset))) [
        | inl missing ↦ search_sound n (suc offset) i (rw (missing, search_join) at h)
        | inr (j, found) ↦
            let same_index : some j ≡ some i = rw (found, search_join) at h in
            found_at offset i (found ∙ same_index)
      ]

  search_complete :
      (n offset d i : ℕ)
      → search_join test expected n offset ≡ none
      → IsAway expected d i
      → offset ≤ d
      → d < offset + n
      → test (some i) ≡ false
  unfolding search_join
  search_complete zero offset d i h away from to = absurd (omega arith)
  search_complete (suc n) offset d i h away from to =
      elim (Option-cases (first_anchor test (candidates expected offset))) [
        | inr (j, found) ↦ let wrong : some j ≡ none = rw (found, search_join) at h in cc
        | inl missing ↦ elim (Bool-cases (offset == d)) [
          | inl here ↦
              none_at offset i missing (let e : offset ≡ d = (==_iff offset d).0 here in rw e away)
          | inr later ↦
              search_complete n (suc offset) d i (rw (missing, search_join) at h) away
                (ground arith) (omega arith)
        ]
      ]

abbrev pub Differs : Text → Text → Type 0
Differs line l = same l line ≡ false

get_or-middle :
    (older newer : List Text) (line : Text)
    → get_or (older ++ line ∷ newer) (length older) [] ≡ line
get_or-middle [] newer line = refl
get_or-middle (l ∷ older) newer line = get_or-middle older newer line

never :
    (ls : List Text) (line : Text) (i : ℕ)
    → All (Differs line) ls
    → i < length ls
    → same (get_or ls i []) line ≡ true
    → ⊥
never [] line i d inside found = omega arith
never (l ∷ ls) line zero (d, ds) inside found = cc
never (l ∷ ls) line (suc i) (d, ds) inside found = never ls line i ds (omega arith) found

-- In the page the anchor stands at one index only.
anchor_unique :
    (older newer : List Text) (line : Text) (i : ℕ)
    → All (Differs line) older
    → All (Differs line) newer
    → i < length (older ++ line ∷ newer)
    → same (get_or (older ++ line ∷ newer) i []) line ≡ true
    → i ≡ length older
anchor_unique [] newer line zero before behind inside found = refl
anchor_unique [] newer line (suc i) before behind inside found =
    absurd (never newer line i behind (omega arith) found)
anchor_unique (l ∷ older) newer line zero (differs, before) behind inside found = cc
anchor_unique (l ∷ older) newer line (suc i) (differs, before) behind inside found =
    ap suc (anchor_unique older newer line i before behind (omega arith) found)

is_anchor-middle :
    (older newer : List Text) (line : Text)
    → is_anchor (older ++ line ∷ newer) line (some (length older)) ≡ true
unfolding is_anchor
is_anchor-middle older newer line =
    rw
      (
        lt→ltb (length older) (length (older ++ line ∷ newer))
            (omega (arith, length-append older (line ∷ newer))),
        get_or-middle older newer line,
      )
      (same_refl line)

found_unique :
    (older newer : List Text) (line : Text) (i : ℕ)
    → All (Differs line) older
    → All (Differs line) newer
    → is_anchor (older ++ line ∷ newer) line (some i) ≡ true
    → i ≡ length older
unfolding is_anchor
found_unique older newer line i before behind at =
    let (inside, found) = (and-eq-true_iff _ _).0 at in
    anchor_unique older newer line i before behind (ltb→lt _ _ inside) found

-- An anchor within the slack is not missed.
missed :
    (page : List Text) (line : Text) (expected i : ℕ)
    → (expected ≤ i + join_search_slack) × (i ≤ expected + join_search_slack)
    → is_anchor page line (some i) ≡ true
    → search_join (is_anchor page line) expected (suc join_search_slack) 0 ≡ none
    → ⊥
missed page line expected i near there missing =
    let far =
      search_complete (is_anchor page line) expected (unfold is_anchor in refl)
        (suc join_search_slack) 0 in
    elim (Bool-cases (leb expected i)) [
      | inl after ↦
          let e =
            far (i - expected) i missing (inl (omega (arith, leb→le _ _ after))) (omega arith)
              (omega arith) in
          cc
      | inr before ↦
          let e =
            far (expected - i) i missing (inr (omega (arith, leb-false→lt _ _ before)))
              (omega arith) (omega arith) in
          cc
    ]

take-prefix {ℓ} : {A : Type ℓ} (xs ys : List A) → take (length xs) (xs ++ ys) ≡ xs
take-prefix [] ys = refl
take-prefix {A} (x ∷ xs) ys = ap (λ (t : List A). x ∷ t) (take-prefix xs ys)

-- Where the anchor line stands once in the page, no more than the slack away from the place that
-- the numbers of lines suggest, what comes back is exactly the lines before it.
pub earlier_pod_lines-exact :
    (older newer : List Text) (line : Text) (current_length : ℕ)
    → All (Differs line) older
    → All (Differs line) newer
    → (length (older ++ line ∷ newer) - current_length ≤ length older + join_search_slack)
      × (length older ≤ length (older ++ line ∷ newer) - current_length + join_search_slack)
    → earlier_pod_lines (older ++ line ∷ newer) (some line) current_length ≡ older
unfolding earlier_pod_lines join_index
earlier_pod_lines-exact older newer line current_length before behind near =
    let page = older ++ line ∷ newer in
    let test = is_anchor page line in
    let expected = length page - current_length in
    let slack = suc join_search_slack in
    elim (Option-cases (search_join test expected slack 0)) [
      | inl missing ↦ absurd (
          missed page line expected (length older) near (is_anchor-middle older newer line) missing)
      | inr (i, found) ↦
          let at = search_sound test expected (unfold is_anchor in refl) slack 0 i found in
          let here : i ≡ length older = found_unique older newer line i before behind at in
          rw (found, join_index, here) (take-prefix older (line ∷ newer))
    ]
