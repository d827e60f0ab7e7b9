-- ===== src/Logs/Ansi/Scan.antt =====
-- Where an escape sequence ends. A position in the text is the text from there on.
use openshift_console.Prelude.{
  ℕ, Bool, false, not, ◌&&◌, ◌||◌, [], ◌∷◌, ◌++◌, Option, none, some, leb, ltb, ◌==◌, if◌then◌else◌,
}
use openshift_console.Prelude.Text.{Text}

abbrev pub esc : ℕ
esc = 27

-- The introducer of one character.
abbrev pub csi : ℕ
csi = 155

abbrev pub bel : ℕ
bel = 7

abbrev pub is_escape : ℕ → Bool
is_escape c = (c == esc) || (c == csi)

unfoldable pub has_ansi : Text → Bool
has_ansi [] = false
has_ansi (c ∷ s) = is_escape c || has_ansi s

-- `/[<=>?]/.test(params)`.
unfoldable pub is_private : Text → Bool
is_private [] = false
is_private (c ∷ s) = (leb 60 c && leb c 63) || is_private s

unfoldable pub scan_csi : Text → Text → Text × Option Text
scan_csi params [] = ([], none)
scan_csi params (c ∷ s) =
    let more = scan_csi (params ++ c ∷ []) s in
    if leb 64 c && leb c 126
    then (s, if (c == b'm') && not (is_private params) then some params else none)
    else if ltb c 32 || ltb 63 c
    then (c ∷ s, none)
    else more

unfoldable pub scan_string : Text → Text
scan_string [] = []
scan_string (c ∷ []) = []
scan_string (c ∷ d ∷ s) =
    let more = scan_string (d ∷ s) in
    if c == bel then d ∷ s else if (c == esc) && (d == 92) then s else more

-- The loop over the intermediates, with the character before.
unfoldable pub scan_charset : ℕ → Text → Text
scan_charset c [] = []
scan_charset c (d ∷ s) = let more = scan_charset d s in if leb 32 c && leb c 47 then more else d ∷ s

abbrev pub opens_string : ℕ → Bool
opens_string kind = (kind == 93) || (kind == 80) || (kind == 88) || (kind == 94) || (kind == 95)

-- What stands behind the sequence that `c` begins, and its parameters if it sets a style.
unfoldable pub scan_escape : ℕ → Text → Text × Option Text
scan_escape c [] = if c == csi then scan_csi [] [] else ([], none)
scan_escape c (kind ∷ s) =
    if c == csi
    then scan_csi [] (kind ∷ s)
    else if kind == b'['
    then scan_csi [] s
    else if opens_string kind
    then (scan_string s, none)
    else (scan_charset kind s, none)
