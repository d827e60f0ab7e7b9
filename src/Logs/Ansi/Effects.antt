-- ===== src/Logs/Ansi/Effects.antt =====
-- What the parameters of a sequence make of a style.
use openshift_console.Prelude.{
  All, ℕ, ◌+◌, ◌≡◌, false, ◌||◌, List, [], ◌∷◌, Option, some, ◌==◌, refl, ap, ◌∙◌, arith, map,
}
use openshift_console.Prelude.Text.{Text, same, split}
use openshift_console.Prelude.Text.Lines.{split-eq_single}
use openshift_console.Logs.Ansi.Style.{AnsiStyle}
use openshift_console.Logs.Ansi.Sgr.{apply_sgr, sgr_codes, sgr_code, sub_code, simple_code}
use openshift_console.Logs.Ansi.Commands.{
  Command, IsCommand, code_of, front_of, digit_of, written, effect, effects, params_of, same_filled,
  params_of-some, split-params_of, AreDigits-Lacks, written-AreDigits,
}

module _ (number : Text → Option ℕ)
    (reads : (c : Command) → IsCommand c → number (written c) ≡ some (code_of c)) where
  simple_code-effect :
      (c : Command) (s : AnsiStyle)
      → IsCommand c
      → (simple_code number s (code_of c) (written c ∷ []) ≡ effect c s)
        × (((code_of c == 38) || (code_of c == 48) || (code_of c == 58)) ≡ false)
  unfolding simple_code
  simple_code-effect c s h = ground arith

  sub_code-filled : (t : Text) → same t [] ≡ false → sub_code number (t ∷ []) ≡ number t
  unfolding sub_code same
  sub_code-filled [] h = cc
  sub_code-filled (c ∷ t) h = refl

  sub_code-written :
      (c : Command) → IsCommand c → sub_code number (written c ∷ []) ≡ some (code_of c)
  sub_code-written c h =
      sub_code-filled (written c) (same_filled (front_of c) (48 + digit_of c) []) ∙ reads c h

  sgr_code-effect :
      (c : Command) (s : AnsiStyle) (rest : List Text)
      → IsCommand c
      → sgr_code number s (split b':' (written c)) rest ≡ (effect c s, 0)
  unfolding sgr_code
  sgr_code-effect c s rest h =
      let one =
        split-eq_single b':' (written c) (AreDigits-Lacks (written c) (written-AreDigits c h)).1 in
      let (made, plain) = simple_code-effect c s h in
      ap (λ sub. sgr_code number s sub rest) one
      ∙ (rw (sgr_code, sub_code-written c h, plain) (ap (λ t. (t, 0)) made))

  sgr_codes-effects :
      (cs : List Command) (s : AnsiStyle)
      → All IsCommand cs
      → sgr_codes number 0 s (map written cs) ≡ effects cs s
  unfolding sgr_codes
  sgr_codes-effects [] s h = refl
  sgr_codes-effects (c ∷ cs) s (h, hs) =
      ap (λ r. sgr_codes number r.1 r.0 (map written cs)) (sgr_code-effect c s (map written cs) h)
      ∙ sgr_codes-effects cs (effect c s) hs

  -- The parameters of some commands make of a style what the commands make, one after the other.
  pub apply_sgr-effects :
      (c : Command) (cs : List Command) (s : AnsiStyle)
      → All IsCommand (c ∷ cs)
      → apply_sgr number s (params_of (c ∷ cs)) ≡ effects (c ∷ cs) s
  unfolding apply_sgr
  apply_sgr-effects c cs s h =
      rw (params_of-some c cs)
        (ap (sgr_codes number 0 s) (split-params_of c cs h) ∙ sgr_codes-effects (c ∷ cs) s h)
