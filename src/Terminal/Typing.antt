-- ===== src/Terminal/Typing.antt =====
-- plugins/terminal/src/pod/typeText.ts: the key events that a text is typed by. The pauses between
-- them are left out.
pub mod Layout
pub mod Strokes
pub mod Reading
mod Tests
use openshift_console.Prelude.{
  ℕ, zero, suc, ◌+◌, ◌-◌, ◌*◌, ◌&&◌, ◌||◌, not, Bool, true, false, List, [], ◌∷◌, ◌++◌, Option,
  none, some, leb, ◌==◌, if◌then◌else◌,
}
use openshift_console.Prelude.Text.{Text, codes}
use openshift_console.Prelude.Text.Keys.{lookup}

-- A physical key, and whether Shift is held for the character.
pub record UsKey : Type 0 where
  pub code : Text
  pub shift : Bool

abbrev pub unshifted : Text → UsKey
unshifted code = record { code = code; shift = false }

abbrev pub shifted : Text → UsKey
shifted code = record { code = code; shift = true }

-- Two characters of one key, the second with Shift.
abbrev pub key_pair : Text → Text → Text → List (Text × UsKey)
key_pair char upper code = (char, unshifted code) ∷ (upper, shifted code) ∷ []

abbrev pub punctuation : List (Text × UsKey)
punctuation =
    (codes " ", unshifted (codes "Space")) ∷ key_pair (codes "`") (codes "~") (codes "Backquote")
    ++ key_pair (codes "-") (codes "_") (codes "Minus")
    ++ key_pair (codes "=") (codes "+") (codes "Equal")
    ++ key_pair (codes "[") (codes "{") (codes "BracketLeft")
    ++ key_pair (codes "]") (codes "}") (codes "BracketRight")
    ++ key_pair (92 ∷ []) (codes "|") (codes "Backslash")
    ++ key_pair (codes ";") (codes ":") (codes "Semicolon")
    ++ key_pair (codes "'") (34 ∷ []) (codes "Quote")
    ++ key_pair (codes ",") (codes "<") (codes "Comma")
    ++ key_pair (codes ".") (codes ">") (codes "Period")
    ++ key_pair (codes "/") (codes "?") (codes "Slash")

-- The keys of the digits from `digit` on, for the symbols above them.
abbrev pub digit_keys : ℕ → Text → List (Text × UsKey)
digit_keys digit [] = []
digit_keys digit (symbol ∷ symbols) =
    key_pair ((48 + digit) ∷ []) (symbol ∷ []) (codes "Digit" ++ (48 + digit) ∷ [])
    ++ digit_keys (suc digit) symbols

-- `toUpperCase` of a letter is 32 below it.
abbrev pub letter_keys : Text → List (Text × UsKey)
letter_keys [] = []
letter_keys (letter ∷ letters) =
    key_pair (letter ∷ []) ((letter - 32) ∷ []) (codes "Key" ++ (letter - 32) ∷ [])
    ++ letter_keys letters

abbrev pub us_layout : List (Text × UsKey)
us_layout =
    punctuation
    ++ digit_keys 0 (codes ")!@#$%^&*(")
    ++ letter_keys (codes "abcdefghijklmnopqrstuvwxyz")

-- What the library for VNC names: three keysyms, and that of a character.
pub record KeyTable : Type 0 where
  pub xk_return : ℕ
  pub xk_tab : ℕ
  pub xk_shift_l : ℕ
  pub keysym_of : ℕ → ℕ

pub record ControlKey : Type 0 where
  pub keysym : ℕ
  pub code : Text

abbrev pub control_keys : KeyTable → List (Text × ControlKey)
control_keys keys =
    (10 ∷ [], record { keysym = keys.xk_return; code = codes "Enter" })
    ∷ (9 ∷ [], record { keysym = keys.xk_tab; code = codes "Tab" })
    ∷ []

-- `text.replace(/\r\n?/g, '\n')`.
abbrev pub starts_with : ℕ → Text → Bool
starts_with c [] = false
starts_with c (d ∷ s) = d == c

abbrev pub rest_of : Text → Text
rest_of [] = []
rest_of (c ∷ s) = s

unfoldable pub normalized : Text → Text
normalized [] = []
normalized (c ∷ s) =
    let rest = normalized s in
    if c == 13 then 10 ∷ (if starts_with 10 s then rest_of rest else rest) else c ∷ rest

-- The characters that the loop goes through: a surrogate pair is one.
abbrev pub is_high : ℕ → Bool
is_high c = leb 55296 c && leb c 56319

abbrev pub starts_low : Text → Bool
starts_low [] = false
starts_low (c ∷ s) = leb 56320 c && leb c 57343

abbrev pub onto_first : ℕ → List Text → List Text
onto_first c [] = (c ∷ []) ∷ []
onto_first c (t ∷ ts) = (c ∷ t) ∷ ts

unfoldable pub characters : Text → List Text
characters [] = []
characters (c ∷ s) =
    let rest = characters s in
    if is_high c && starts_low s then onto_first c rest else (c ∷ []) ∷ rest

-- `char.codePointAt(0) ?? 0`.
abbrev pub code_point : Text → ℕ
code_point [] = 0
code_point (c ∷ []) = c
code_point (c ∷ d ∷ s) =
    if is_high c && starts_low (d ∷ s) then (c - 55296) * 1024 + (d - 56320) + 65536 else c

-- A call of `sendKey`, and whether it returns.
pub record KeyEvent : Type 0 where
  pub keysym : ℕ
  pub code : Text
  pub down : Bool

pub record Sent : Type 0 where
  pub event : KeyEvent
  pub accepted : Bool

-- What was sent, and whether something was thrown.
pub record Typed : Type 0 where
  pub log : List Sent
  pub threw : Bool

-- `accepts` tells whether the session takes an event, behind those that it was sent.
module _ (keys : KeyTable) (accepts : List Sent → KeyEvent → Bool) where
  unfoldable pub send_key : KeyEvent → List Sent → Typed
  send_key e log =
      let ok = accepts log e in
      record { log = log ++ record { event = e; accepted = ok } ∷ []; threw = not ok }

  abbrev pub shift_event : Bool → KeyEvent
  shift_event down = record { keysym = keys.xk_shift_l; code = codes "ShiftLeft"; down = down }

  abbrev pub keysym_for : Text → ℕ
  keysym_for char = elim (lookup (control_keys keys) char) [
    | some control ↦ control.keysym
    | none ↦ keys.keysym_of (code_point char)
  ]

  abbrev pub code_for : Text → Text
  code_for char = elim (lookup (control_keys keys) char) [
    | some control ↦ control.code
    | none ↦ elim (lookup us_layout char) [ some key ↦ key.code | none ↦ [] ]
  ]

  abbrev pub needs_shift : Text → Bool
  needs_shift char = elim (lookup us_layout char) [ some key ↦ key.shift | none ↦ false ]

  abbrev pub key_event : Text → Bool → KeyEvent
  key_event char down = record { keysym = keysym_for char; code = code_for char; down = down }

  -- The body of the `try`.
  unfoldable pub press_key : Text → List Sent → Typed
  press_key char log =
      let pressed = send_key (key_event char true) log in
      let released = send_key (key_event char false) pressed.log in
      if pressed.threw then pressed else released

  -- The `try` with its `finally`, under Shift. What either throws goes on.
  unfoldable pub press_shifted : Text → List Sent → Typed
  press_shifted char log =
      let typed = press_key char log in
      let released = send_key (shift_event false) typed.log in
      record released { threw = typed.threw || released.threw }

  -- A round of the loop.
  unfoldable pub type_char : Text → List Sent → Typed
  type_char char log =
      let held = send_key (shift_event true) log in
      let typed = press_shifted char held.log in
      if needs_shift char then (if held.threw then held else typed) else press_key char log

  unfoldable pub type_chars : List Text → List Sent → Typed
  type_chars [] log = record { log = log; threw = false }
  type_chars (char ∷ chars) log =
      let typed = type_char char log in
      let rest = type_chars chars typed.log in if typed.threw then typed else rest

  unfoldable pub type_text : Text → Typed
  type_text text = type_chars (characters (normalized text)) []
