-- ===== src/Logs/Stream/Quiet.antt =====
-- What goes by while a request goes on.
use openshift_console.Prelude.{
  All, ◌≡◌, ◌++◌, ◌∷◌, false, List, [], none, some, ap, sym, ◌∙◌, arith,
}
use mathlib.Core.Path.{subst}
use openshift_console.Prelude.Text.{Text}
use openshift_console.Logs.Stream.{
  Key, state_for, Engine, Frame, Request, View, answered, got_bytes, got_end, got_text, framed,
  threw, settle, Phase, bump, frame_fires, scheduled, cancelled, idle,
}
use openshift_console.Logs.Stream.Hook.{
  Hook, Event, reloads, settles, settle_run, settle_current, settle_late, renders, prepends, late,
  step, steps,
}
use openshift_console.Logs.Stream.Superseded.{IsAborted, IsChecked, settle_at-state, settle_at-view}
use openshift_console.Logs.Stream.Reading.{HasRead}

-- What can happen between the steps of a request and leaves its buffer as it is: a frame, and all that
-- comes of a superseded run but the whole text of a response without a body.
abbrev pub IsQuiet : Event → Type 0
IsQuiet (settles framed) = Unit
IsQuiet (late i s) = IsChecked s
IsQuiet e = ⊥

module _ {D : Type 0} where
  -- A hook whose run waits in a phase.
  abbrev pub hook_at : Key → Phase D → List (Request D) → Frame → View → Hook D
  hook_at k p rs f v = record {
    view = v;
    key = k;
    current = some (record { key = k; phase = p; aborted = false; frame = f });
    superseded = rs;
  }

  module _ (k : Key) where
    -- What holds while the request goes on: the other runs are aborted, the buffer holds what was
    -- read, and no error is shown.
    abbrev pub GoesOn : List (Request D) → View → Text → Type 0
    GoesOn rs v t =
        All IsAborted rs × HasRead 500000 v.buffer t × ((state_for k v.state).error ≡ none)

    bumped :
        (f : Frame) (p : Phase D) (v : View)
        → let r : Request D = record { key = k; phase = p; aborted = false; frame = f } in
          ((bump r v).buffer ≡ v.buffer)
          × ((state_for k (bump r v).state).error ≡ (state_for k v.state).error)
    unfolding bump state_for
    bumped f p v = ground arith

module _ {D : Type 0} (engine : Engine D) where
  module _ (k : Key) where
    -- What is quiet goes by.
    pub quiet_lem :
        (es more : List Event) (p : Phase D) (rs : List (Request D)) (f : Frame) (v : View)
        (t : Text) (P : Hook D → Type 0)
        → All IsQuiet es
        → GoesOn k rs v t
        → ((rs' : List (Request D)) (f' : Frame) (v' : View)
            → GoesOn k rs' v' t
            → P (steps engine more (hook_at k p rs' f' v')))
        → P (steps engine (es ++ more) (hook_at k p rs f v))
    unfolding steps step settle_current settle_run settle frame_fires settle_late
    quiet_lem [] more p rs f v t P h g next = next rs f v g
    quiet_lem (settles framed ∷ es) more p rs idle v t P (h, hs) g next =
        quiet_lem es more p rs idle v t P hs g next
    quiet_lem (settles framed ∷ es) more p rs cancelled v t P (h, hs) g next =
        quiet_lem es more p rs cancelled v t P hs g next
    quiet_lem (settles framed ∷ es) more p rs scheduled v t P (h, hs) (rest, read, quiet) next =
        let (same_buffer, same_error) = bumped k scheduled p v in
        quiet_lem es more p rs idle _ t P hs
          (rest, subst (λ b. HasRead 500000 b t) (sym same_buffer) read, same_error ∙ quiet) next
    quiet_lem (late i s ∷ es) more p rs f v t P (h, hs) (rest, read, quiet) next =
        let same_view = settle_at-view engine i s rs v rest h in
        quiet_lem es more p _ f _ t P hs
          (
            (settle_at-state engine i s rs v rest).1,
            subst (λ w. HasRead 500000 w.buffer t) (sym same_view) read,
            ap (λ w. (state_for k w.state).error) same_view ∙ quiet,
          )
          next
    quiet_lem (renders url ∷ es) more p rs f v t P (h, hs) g next = absurd h
    quiet_lem (reloads ∷ es) more p rs f v t P (h, hs) g next = absurd h
    quiet_lem (prepends c ∷ es) more p rs f v t P (h, hs) g next = absurd h
    quiet_lem (settles (answered r) ∷ es) more p rs f v t P (h, hs) g next = absurd h
    quiet_lem (settles (got_text u) ∷ es) more p rs f v t P (h, hs) g next = absurd h
    quiet_lem (settles (got_bytes u) ∷ es) more p rs f v t P (h, hs) g next = absurd h
    quiet_lem (settles got_end ∷ es) more p rs f v t P (h, hs) g next = absurd h
    quiet_lem (settles (threw e) ∷ es) more p rs f v t P (h, hs) g next = absurd h
