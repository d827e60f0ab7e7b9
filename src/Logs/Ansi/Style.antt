-- ===== src/Logs/Ansi/Style.antt =====
-- Colours and styles.
use openshift_console.Prelude.{
  ℕ, ◌+◌, ◌-◌, ◌*◌, ◌/◌, ◌%◌, Bool, true, false, not, ◌&&◌, List, [], ◌∷◌, ◌++◌, Option, none, some,
  leb, ltb, ◌==◌, if◌then◌else◌, get_or,
}
use openshift_console.Prelude.Text.{Text, same}

-- An index into the palette, or `#rrggbb`.
pub data AnsiColor : Type 0 where
  index : ℕ → AnsiColor
  hex : Text → AnsiColor

pub record AnsiStyle : Type 0 where
  pub fg : Option AnsiColor
  pub bg : Option AnsiColor
  pub bold : Bool
  pub dim : Bool
  pub italic : Bool
  pub underline : Bool
  pub inverse : Bool
  pub hidden : Bool
  pub strike : Bool

-- A run of text; `none` for the surrounding style.
pub record AnsiSpan : Type 0 where
  pub text : Text
  pub style : Option AnsiStyle

abbrev pub plain_style : AnsiStyle
plain_style = record {
  fg = none;
  bg = none;
  bold = false;
  dim = false;
  italic = false;
  underline = false;
  inverse = false;
  hidden = false;
  strike = false;
}

unfoldable pub is_none {ℓ} : {A : Type ℓ} → Option A → Bool
is_none none = true
is_none (some x) = false

unfoldable pub is_plain : AnsiStyle → Bool
is_plain s =
    is_none s.fg
    && is_none s.bg
    && not s.bold
    && not s.dim
    && not s.italic
    && not s.underline
    && not s.inverse
    && not s.hidden
    && not s.strike

unfoldable pub same_flag : Bool → Bool → Bool
same_flag true b = b
same_flag false b = not b

unfoldable pub same_color : Option AnsiColor → Option AnsiColor → Bool
same_color none none = true
same_color none (some d) = false
same_color (some c) none = false
same_color (some (index m)) (some (index n)) = m == n
same_color (some (index m)) (some (hex t)) = false
same_color (some (hex s)) (some (index n)) = false
same_color (some (hex s)) (some (hex t)) = same s t

unfoldable pub same_style : Option AnsiStyle → Option AnsiStyle → Bool
same_style none none = true
same_style none (some b) = false
same_style (some a) none = false
same_style (some a) (some b) =
    same_color a.fg b.fg
    && same_color a.bg b.bg
    && same_flag a.bold b.bold
    && same_flag a.dim b.dim
    && same_flag a.italic b.italic
    && same_flag a.underline b.underline
    && same_flag a.inverse b.inverse
    && same_flag a.hidden b.hidden
    && same_flag a.strike b.strike

unfoldable pub hex_digit : ℕ → ℕ
hex_digit n = if ltb n 10 then b'0' + n else b'a' + (n - 10)

-- Two digits, for a value that is cut to a byte.
unfoldable pub to_hex : ℕ → Text
to_hex value =
    let byte = if ltb 255 value then 255 else value in
    hex_digit (byte / 16) ∷ hex_digit (byte % 16) ∷ []

unfoldable pub rgb : ℕ → ℕ → ℕ → Text
rgb r g b = b'#' ∷ (to_hex r ++ (to_hex g ++ to_hex b))

abbrev pub cube_levels : List ℕ
cube_levels = 0 ∷ 95 ∷ 135 ∷ 175 ∷ 215 ∷ 255 ∷ []

-- The colour of an index of 16 and more.
unfoldable pub palette_color : ℕ → Text
palette_color n =
    let level = 8 + (n - 232) * 10 in
    let cube = n - 16 in
    if leb 232 n
    then rgb level level level
    else rgb (get_or cube_levels (cube / 36 % 6) 0) (get_or cube_levels (cube / 6 % 6) 0)
        (get_or cube_levels (cube % 6) 0)
