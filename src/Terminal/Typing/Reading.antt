-- ===== src/Terminal/Typing/Reading.antt =====
-- The text that a machine with a US keyboard reads.
use openshift_console.Prelude.{
  All, ℕ, ◌≡◌, ◌⊎◌, ◌&&◌, Bool, true, false, List, [], ◌∷◌, ◌++◌, none, some, refl, ap, sym, ◌∙◌,
  Bool-cases, inl, inr, append_assoc, append-nil,
}
use openshift_console.Prelude.Text.{Text, same}
use openshift_console.Prelude.Text.Keys.{lookup}
use openshift_console.Terminal.Typing.{
  UsKey, us_layout, KeyTable, control_keys, normalized, characters, KeyEvent, Sent, send_key,
  shift_event, code_for, needs_shift, key_event, press_key, press_shifted, type_char, type_chars,
  type_text, is_high, starts_low, onto_first,
}
use openshift_console.Terminal.Typing.Layout.{char_of, found-lookup, us_layout-found}
use openshift_console.Terminal.Typing.Strokes.{
  Machine, take_event, watch, seen, seen-send_key, code_for-other, at_rest,
}

-- A character of the layout, a line break or a tab.
abbrev pub IsTypable : Text → Type 0
IsTypable char =
    ((key : UsKey) × (lookup us_layout char ≡ some key)) ⊎ (char ≡ 10 ∷ []) ⊎ (char ≡ 9 ∷ [])

abbrev concat : List Text → Text
concat [] = []
concat (t ∷ ts) = t ++ concat ts

concat-onto_first : (c : ℕ) (ts : List Text) → concat (onto_first c ts) ≡ c ∷ concat ts
concat-onto_first c [] = refl
concat-onto_first c (t ∷ ts) = refl

concat-characters : (s : Text) → concat (characters s) ≡ s
unfolding characters
concat-characters [] = refl
concat-characters (c ∷ s) =
    let behind : c ∷ concat (characters s) ≡ c ∷ s =
      ap {A = Text} {B = Text} (λ t. c ∷ t) (concat-characters s) in
    elim (Bool-cases (is_high c && starts_low s)) [
      | inl pair ↦ rw pair (concat-onto_first c (characters s) ∙ behind)
      | inr one ↦ rw one behind
    ]

module _ (keys : KeyTable) (accepts : List Sent → KeyEvent → Bool)
    (all : (log : List Sent) (e : KeyEvent) → accepts log e ≡ true) where
  abbrev read_by : List Sent → Machine
  read_by log = seen keys accepts log

  reads-char :
      (char : Text)
      → IsTypable char
      → char_of (needs_shift keys accepts char) (code_for keys accepts char) ≡ some char
  reads-char char (inl (key, e)) =
      let (found, _, enter, tab) = found-lookup us_layout char key us_layout-found e in
      let no_control : lookup (control_keys keys) char ≡ none =
        unfold lookup in rw (enter, tab) refl in
      rw (code_for, needs_shift, no_control, e) found
  reads-char char (inr (inl e)) = rw e (unfold lookup same char_of in refl)
  reads-char char (inr (inr e)) = rw e (unfold lookup same char_of in refl)

  seen-sent :
      (e : KeyEvent) (log : List Sent)
      → read_by (send_key keys accepts e log).log ≡ take_event (read_by log) e
  seen-sent e log = seen-send_key keys accepts e log ∙ rw (all log e) refl

  not-threw : (e : KeyEvent) (log : List Sent) → (send_key keys accepts e log).threw ≡ false
  unfolding send_key
  not-threw e log = rw (all log e) refl

  -- A key that is pressed and released, under the right state of Shift.
  press_key-shown :
      (char : Text) (log : List Sent)
      → IsTypable char
      → (read_by log).held ≡ needs_shift keys accepts char
      → (read_by (press_key keys accepts char log).log
          ≡ record (read_by log) { shown = (read_by log).shown ++ char })
        × ((press_key keys accepts char log).threw ≡ false)
  unfolding press_key
  press_key-shown char log typable held =
      let other = code_for-other keys accepts char in
      let down = key_event keys accepts char true in
      let up = key_event keys accepts char false in
      let pressed = send_key keys accepts down log in
      let read : take_event (read_by log) down
          ≡ record (read_by log) { shown = (read_by log).shown ++ char } =
        unfold take_event in rw (other, held, reads-char char typable) refl in
      let idle : (m : Machine) → take_event m up ≡ m = λ m. unfold take_event in rw other refl in
      rw (not-threw down log) (
        seen-sent up pressed.log ∙ idle (read_by pressed.log) ∙ seen-sent down log ∙ read,
        not-threw up pressed.log,
      )

  take_shift :
      (m : Machine) (down : Bool)
      → take_event m (shift_event keys accepts down) ≡ record m { held = down }
  unfolding take_event same
  take_shift m down = refl

  -- A character that needs Shift.
  press_shifted-shown :
      (char : Text) (log : List Sent)
      → IsTypable char
      → needs_shift keys accepts char ≡ true
      → (read_by log).held ≡ true
      → (read_by (press_shifted keys accepts char log).log
          ≡ record { held = false; shown = (read_by log).shown ++ char })
        × ((press_shifted keys accepts char log).threw ≡ false)
  unfolding press_shifted
  press_shifted-shown char log typable needs held =
      let (typed, quiet) = press_key-shown char log typable (held ∙ sym needs) in
      let released = (press_key keys accepts char log).log in
      let up = shift_event keys accepts false in
      (
        seen-sent up released
            ∙ take_shift (read_by released) false
            ∙ ap {A = Machine} {B = Machine} (λ m. record m { held = false }) typed,
        rw (quiet, not-threw up released) refl,
      )

  abbrev typed_behind : Machine → Text → Machine
  typed_behind m t = record { held = false; shown = m.shown ++ t }

  type_char-shown :
      (char : Text) (log : List Sent)
      → IsTypable char
      → (read_by log).held ≡ false
      → (read_by (type_char keys accepts char log).log ≡ typed_behind (read_by log) char)
        × ((type_char keys accepts char log).threw ≡ false)
  unfolding type_char
  type_char-shown char log typable held =
      let shift = shift_event keys accepts true in
      let down = send_key keys accepts shift log in
      let pressed : read_by down.log ≡ record (read_by log) { held = true } =
        seen-sent shift log ∙ take_shift (read_by log) true in
      elim (Bool-cases (needs_shift keys accepts char)) [
        | inl needs ↦
            let (typed, quiet) =
              press_shifted-shown char down.log typable needs (ap (λ m. m.held) pressed) in
            rw (needs, not-threw shift log) (typed ∙ ap (λ m. typed_behind m char) pressed, quiet)
        | inr plain ↦
            let (typed, quiet) = press_key-shown char log typable (held ∙ sym plain) in
            rw plain (
              typed
                  ∙ ap {A = Bool} {B = Machine}
                      (λ b. record { held = b; shown = (read_by log).shown ++ char }) held,
              quiet,
            )
      ]

  type_chars-shown :
      (chars : List Text) (log : List Sent)
      → All IsTypable chars
      → (read_by log).held ≡ false
      → (read_by (type_chars keys accepts chars log).log
          ≡ typed_behind (read_by log) (concat chars))
        × ((type_chars keys accepts chars log).threw ≡ false)
  unfolding type_chars
  type_chars-shown [] log typable held = (
    ap {A = Bool} {B = Machine} (λ b. record { held = b; shown = (read_by log).shown }) held
        ∙ ap {A = Text} {B = Machine} (λ t. record { held = false; shown = t })
            (sym (append-nil (read_by log).shown)),
    refl,
  )
  type_chars-shown (char ∷ chars) log (typable, more) held =
      let (typed, quiet) = type_char-shown char log typable held in
      let next = (type_char keys accepts char log).log in
      let (rest, still) = type_chars-shown chars next more (ap (λ m. m.held) typed) in
      rw quiet (
        rest
            ∙ ap (λ m. typed_behind m (concat chars)) typed
            ∙ ap {A = Text} {B = Machine} (λ t. record { held = false; shown = t })
                (append_assoc (read_by log).shown char (concat chars)),
        still,
      )

  -- Where every event is accepted, a text of characters of the layout, line breaks (in whatever way)
  -- and tabs is typed to its end, and a machine with a US keyboard reads it: each key under the right
  -- state of Shift, each line break as one Return; and Shift is up behind it.
  pub type_text-shown :
      (text : Text)
      → All IsTypable (characters (normalized text))
      → (watch at_rest (type_text keys accepts text).log
          ≡ record { held = false; shown = normalized text })
        × ((type_text keys accepts text).threw ≡ false)
  unfolding type_text
  type_text-shown text typable =
      let start : read_by [] ≡ at_rest = unfold watch in refl in
      let (typed, quiet) =
        type_chars-shown (characters (normalized text)) [] typable (ap (λ m. m.held) start) in
      (
        typed
            ∙ ap (λ m. typed_behind m (concat (characters (normalized text)))) start
            ∙ ap {A = Text} {B = Machine} (λ t. record { held = false; shown = t })
                (concat-characters (normalized text)),
        quiet,
      )
