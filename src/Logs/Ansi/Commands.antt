-- ===== src/Logs/Ansi/Commands.antt =====
-- Changes of style as they are written, and what each makes of a style.
use openshift_console.Prelude.{
  All, ℕ, ◌+◌, ◌≤◌, ◌≡◌, true, false, ◌&&◌, List, [], ◌∷◌, ◌++◌, none, some, leb, refl, ap, ◌∙◌,
  arith, map, append-nil,
}
use openshift_console.Prelude.Text.{Text, codes, same, Lacks, split, join}
use openshift_console.Prelude.Text.Lines.{split-eq_single, split-append_sep}
use openshift_console.Logs.Ansi.Style.{index, AnsiStyle, plain_style}
use openshift_console.Logs.Ansi.Shown.{IsParams}

-- Colours are those of the first eight, plain or bright.
pub data Command : Type 0 where
  reset bold_on dim_on italic_on underline_on inverse_on hidden_on strike_on : Command
  normal_weight italic_off underline_off inverse_off hidden_off strike_off : Command
  default_fg default_bg : Command
  fg_color bg_color bright_fg bright_bg : ℕ → Command

abbrev pub IsCommand : Command → Type 0
IsCommand (fg_color n) = n ≤ 7
IsCommand (bg_color n) = n ≤ 7
IsCommand (bright_fg n) = n ≤ 7
IsCommand (bright_bg n) = n ≤ 7
IsCommand _ = Unit

abbrev pub code_of : Command → ℕ
code_of reset = 0
code_of bold_on = 1
code_of dim_on = 2
code_of italic_on = 3
code_of underline_on = 4
code_of inverse_on = 7
code_of hidden_on = 8
code_of strike_on = 9
code_of normal_weight = 22
code_of italic_off = 23
code_of underline_off = 24
code_of inverse_off = 27
code_of hidden_off = 28
code_of strike_off = 29
code_of default_fg = 39
code_of default_bg = 49
code_of (fg_color n) = 30 + n
code_of (bg_color n) = 40 + n
code_of (bright_fg n) = 90 + n
code_of (bright_bg n) = 100 + n

-- The first digits of the code, which is written in decimal.
abbrev pub front_of : Command → Text
front_of normal_weight = codes "2"
front_of italic_off = codes "2"
front_of underline_off = codes "2"
front_of inverse_off = codes "2"
front_of hidden_off = codes "2"
front_of strike_off = codes "2"
front_of default_fg = codes "3"
front_of default_bg = codes "4"
front_of (fg_color n) = codes "3"
front_of (bg_color n) = codes "4"
front_of (bright_fg n) = codes "9"
front_of (bright_bg n) = codes "10"
front_of _ = []

-- The last digit.
abbrev pub digit_of : Command → ℕ
digit_of normal_weight = 2
digit_of italic_off = 3
digit_of underline_off = 4
digit_of inverse_off = 7
digit_of hidden_off = 8
digit_of strike_off = 9
digit_of default_fg = 9
digit_of default_bg = 9
digit_of (fg_color n) = n
digit_of (bg_color n) = n
digit_of (bright_fg n) = n
digit_of (bright_bg n) = n
digit_of c = code_of c

abbrev pub written : Command → Text
written c = front_of c ++ (48 + digit_of c) ∷ []

abbrev pub effect : Command → AnsiStyle → AnsiStyle
effect reset s = plain_style
effect bold_on s = record s { bold = true }
effect dim_on s = record s { dim = true }
effect italic_on s = record s { italic = true }
effect underline_on s = record s { underline = true }
effect inverse_on s = record s { inverse = true }
effect hidden_on s = record s { hidden = true }
effect strike_on s = record s { strike = true }
effect normal_weight s = record s { bold = false; dim = false }
effect italic_off s = record s { italic = false }
effect underline_off s = record s { underline = false }
effect inverse_off s = record s { inverse = false }
effect hidden_off s = record s { hidden = false }
effect strike_off s = record s { strike = false }
effect default_fg s = record s { fg = none }
effect default_bg s = record s { bg = none }
effect (fg_color n) s = record s { fg = some (index n) }
effect (bg_color n) s = record s { bg = some (index n) }
effect (bright_fg n) s = record s { fg = some (index (8 + n)) }
effect (bright_bg n) s = record s { bg = some (index (8 + n)) }

abbrev pub effects : List Command → AnsiStyle → AnsiStyle
effects [] s = s
effects (c ∷ cs) s = effects cs (effect c s)

-- The parameters of a sequence.
abbrev pub params_of : List Command → Text
params_of cs = join b';' (map written cs)

-- Digits only.
abbrev AreDigits : Text → Type 0
AreDigits [] = Unit
AreDigits (c ∷ s) = ((leb 48 c && leb c 57) ≡ true) × AreDigits s

AreDigits-append : (s t : Text) → AreDigits s → AreDigits t → AreDigits (s ++ t)
AreDigits-append [] t h k = k
AreDigits-append (c ∷ s) t (e, h) k = (e, AreDigits-append s t h k)

pub AreDigits-Lacks : (s : Text) → AreDigits s → Lacks b';' s × Lacks b':' s
AreDigits-Lacks [] h = (tt, tt)
AreDigits-Lacks (c ∷ s) (e, h) =
    let (semi, colon) = AreDigits-Lacks s h in ((ground arith, semi), (ground arith, colon))

front-AreDigits : (c : Command) → AreDigits (front_of c)
front-AreDigits c = ground arith

digit_small : (c : Command) → IsCommand c → digit_of c ≤ 9
digit_small c h = ground arith

pub written-AreDigits : (c : Command) → IsCommand c → AreDigits (written c)
written-AreDigits c h =
    let small = digit_small c h in
    AreDigits-append (front_of c) ((48 + digit_of c) ∷ []) (front-AreDigits c) (ground arith, tt)

pub split-params_of :
    (c : Command) (cs : List Command)
    → All IsCommand (c ∷ cs)
    → split b';' (params_of (c ∷ cs)) ≡ map written (c ∷ cs)
unfolding join
split-params_of c [] (h, _) =
    split-eq_single b';' (written c) (AreDigits-Lacks (written c) (written-AreDigits c h)).0
split-params_of c (d ∷ cs) (h, hs) =
    split-append_sep b';' (written c) (params_of (d ∷ cs))
      (AreDigits-Lacks (written c) (written-AreDigits c h)).0
    ∙ ap {A = List Text} {B = List Text} (λ ts. written c ∷ ts) (split-params_of d cs hs)

IsParams-append : (s t : Text) → AreDigits s → IsParams t → IsParams (s ++ t)
IsParams-append [] t h k = k
IsParams-append (c ∷ s) t (e, h) k = (ground arith, IsParams-append s t h k)

pub params_of-IsParams :
    (c : Command) (cs : List Command) → All IsCommand (c ∷ cs) → IsParams (params_of (c ∷ cs))
unfolding join
params_of-IsParams c [] (h, _) =
    rw⁻¹ (append-nil (written c)) (IsParams-append (written c) [] (written-AreDigits c h) tt)
params_of-IsParams c (d ∷ cs) (h, hs) =
    IsParams-append (written c) (b';' ∷ params_of (d ∷ cs)) (written-AreDigits c h)
      (refl, params_of-IsParams d cs hs)

pub same_filled : (s : Text) (x : ℕ) (t : Text) → same (s ++ x ∷ t) [] ≡ false
unfolding same
same_filled [] x t = refl
same_filled (c ∷ s) x t = refl

pub params_of-some : (c : Command) (cs : List Command) → same (params_of (c ∷ cs)) [] ≡ false
unfolding same join
params_of-some c [] = same_filled (front_of c) (48 + digit_of c) []
params_of-some c (d ∷ cs) = same_filled (written c) b';' (params_of (d ∷ cs))
