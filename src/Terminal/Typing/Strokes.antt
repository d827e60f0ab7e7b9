-- ===== src/Terminal/Typing/Strokes.antt =====
-- What a machine with a US keyboard makes of the events.
use openshift_console.Prelude.{
  ◌≡◌, Bool, true, false, List, [], ◌∷◌, ◌++◌, Option, none, some, refl, ap, ◌∙◌, arith, Bool-cases,
  Option-cases, inl, inr, if◌then◌else◌,
}
use openshift_console.Prelude.Text.{Text, codes, same}
use openshift_console.Prelude.Text.Keys.{lookup}
use openshift_console.Terminal.Typing.{
  us_layout, KeyTable, ControlKey, control_keys, normalized, characters, KeyEvent, Sent, send_key,
  shift_event, code_for, key_event, press_key, press_shifted, type_char, type_chars, type_text,
}
use openshift_console.Terminal.Typing.Layout.{char_of, shift_left, found-lookup, us_layout-found}

-- The machine: whether Shift is down, and what was typed.
pub record Machine : Type 0 where
  pub held : Bool
  pub shown : Text

abbrev pub or_nothing : Option Text → Text
or_nothing none = []
or_nothing (some t) = t

unfoldable pub take_event : Machine → KeyEvent → Machine
take_event m e =
    if same e.code shift_left
    then record m { held = e.down }
    else if e.down
    then record m { shown = m.shown ++ or_nothing (char_of m.held e.code) }
    else m

unfoldable pub watch : Machine → List Sent → Machine
watch m [] = m
watch m (x ∷ log) = watch (if x.accepted then take_event m x.event else m) log

pub watch-append :
    (m : Machine) (log more : List Sent) → watch m (log ++ more) ≡ watch (watch m log) more
unfolding watch
watch-append m [] more = refl
watch-append m (x ∷ log) more =
    watch-append (if x.accepted then take_event m x.event else m) log more

abbrev pub at_rest : Machine
at_rest = record { held = false; shown = [] }

module _ (keys : KeyTable) (accepts : List Sent → KeyEvent → Bool) where
  abbrev pub seen : List Sent → Machine
  seen log = watch at_rest log

  pub seen-send_key :
      (e : KeyEvent) (log : List Sent)
      → seen (send_key keys accepts e log).log
        ≡ (if accepts log e then take_event (seen log) e else seen log)
  unfolding send_key
  seen-send_key e log = watch-append at_rest log _ ∙ unfold watch in refl

  -- What an event of a key that is not Shift leaves alone.
  take_event-held :
      (m : Machine) (e : KeyEvent) → same e.code shift_left ≡ false → (take_event m e).held ≡ m.held
  unfolding take_event
  take_event-held m e h = ground arith

  send_key-held :
      (e : KeyEvent) (log : List Sent)
      → same e.code shift_left ≡ false
      → (seen (send_key keys accepts e log).log).held ≡ (seen log).held
  send_key-held e log h =
      let kept = take_event-held (seen log) e h in
      ap (λ m. m.held) (seen-send_key e log)
      ∙ elim (Bool-cases (accepts log e)) [ inl t ↦ rw t kept | inr f ↦ rw f refl ]

  pub control_other :
      (char : Text) (control : ControlKey)
      → lookup (control_keys keys) char ≡ some control
      → same control.code shift_left ≡ false
  unfolding lookup
  control_other char control h =
      let enter : same (codes "Enter") shift_left ≡ false = unfold same in refl in
      let tab : same (codes "Tab") shift_left ≡ false = unfold same in refl in
      elim (Bool-cases (same (10 ∷ []) char)) [
        | inl a ↦ ground arith
        | inr a ↦ elim (Bool-cases (same (9 ∷ []) char)) [
          | inl b ↦ ground arith
          | inr b ↦ ground arith
        ]
      ]

  pub code_for-other : (char : Text) → same (code_for keys accepts char) shift_left ≡ false
  code_for-other char = elim (Option-cases (lookup (control_keys keys) char)) [
    | inr (control, e) ↦ rw (code_for, e) (control_other char control e)
    | inl e ↦ elim (Option-cases (lookup us_layout char)) [
      | inr (key, k) ↦ rw (code_for, e, k) (found-lookup us_layout char key us_layout-found k).1
      | inl n ↦ rw (code_for, e, n) (unfold same in refl)
    ]
  ]

  press_key-held :
      (char : Text) (log : List Sent)
      → (seen (press_key keys accepts char log).log).held ≡ (seen log).held
  unfolding press_key
  press_key-held char log =
      let other = code_for-other char in
      let pressed = send_key keys accepts (key_event keys accepts char true) log in
      let down = send_key-held (key_event keys accepts char true) log other in
      let up = send_key-held (key_event keys accepts char false) pressed.log other in ground arith

  module _ (lets_go : (log : List Sent) → accepts log (shift_event keys accepts false) ≡ true) where
    shift_released :
        (log : List Sent)
        → (seen (send_key keys accepts (shift_event keys accepts false) log).log).held ≡ false
    shift_released log =
        ap (λ m. m.held) (seen-send_key (shift_event keys accepts false) log)
        ∙ rw (lets_go log) (unfold take_event same in refl)

    shift_refused :
        (log : List Sent)
        → (seen log).held ≡ false
        → (send_key keys accepts (shift_event keys accepts true) log).threw ≡ true
        → (seen (send_key keys accepts (shift_event keys accepts true) log).log).held ≡ false
    shift_refused log h threw =
        let refused : accepts log (shift_event keys accepts true) ≡ false =
          unfold send_key in ground arith in
        ap (λ m. m.held) (seen-send_key (shift_event keys accepts true) log) ∙ rw refused h

    type_char-held :
        (char : Text) (log : List Sent)
        → (seen log).held ≡ false
        → (seen (type_char keys accepts char log).log).held ≡ false
    unfolding type_char press_shifted
    type_char-held char log h =
        let down = send_key keys accepts (shift_event keys accepts true) log in
        let refused = shift_refused log h in
        let released = shift_released (press_key keys accepts char down.log).log in
        let plain = press_key-held char log in ground arith

    type_chars-held :
        (chars : List Text) (log : List Sent)
        → (seen log).held ≡ false
        → (seen (type_chars keys accepts chars log).log).held ≡ false
    unfolding type_chars
    type_chars-held [] log h = h
    type_chars-held (char ∷ chars) log h =
        let typed = type_char-held char log h in
        let rest = type_chars-held chars (type_char keys accepts char log).log typed in ground arith

    -- A session that never refuses the release of Shift is left without Shift held, whatever the
    -- text, and also where another event is refused and the typing breaks off.
    pub type_text-held :
        (text : Text) → (watch at_rest (type_text keys accepts text).log).held ≡ false
    unfolding type_text
    type_text-held text = type_chars-held (characters (normalized text)) [] (unfold watch in refl)
