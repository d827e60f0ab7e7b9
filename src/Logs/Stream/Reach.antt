-- ===== src/Logs/Stream/Reach.antt =====
-- What holds of a hook after any events.
use openshift_console.Prelude.{
  All, ℕ, zero, suc, ◌+◌, ◌≤◌, ◌≡◌, ◌∷◌, List, [], Option, none, some, refl, ◌∙◌, arith, Bool-cases,
  inl, inr,
}
use mathlib.Core.Path.{subst}
use openshift_console.Prelude.Text.{Text}
use openshift_console.Logs.Buffer.{new_buffer}
use openshift_console.Logs.Buffer.Front.{prepend}
use openshift_console.Logs.Buffer.History.{new_buffer-IsValid}
use openshift_console.Logs.Stream.{Key, same_key, state_for, Engine, Request, View, Settled, settle}
use openshift_console.Logs.Stream.Hook.{
  Hook, start_for, retire, abort, restart, render, reload, prepend_earlier, bump_if, mount, Event,
  renders, reloads, prepends, settles, late, settle_run, settle_current, settle_late, step, steps,
}
use openshift_console.Logs.Stream.Held.{
  IsHeld, prepend-IsHeld, clear-IsHeld, settle-IsHeld, settle_at-IsHeld, IsDated, settle-IsDated,
}
use openshift_console.Logs.Stream.Superseded.{
  IsAborted, IsChecked, settle-same, settle_at-state, settle_late-view,
}
use openshift_console.Logs.Stream.Shown.{IsShown, Shows, Shows-version, settle-Shows}

-- The runs that were superseded are aborted; the run of the effect, if there is one, is not, has the
-- hook's key, and is shown as its phase is; the buffer holds lines, and no state is newer than the
-- hook.
pub record IsReached {D : Type 0} (h : Hook D) : Type 0 where
  pub retired : All IsAborted h.superseded
  pub going : IsShown h.key h.current h.view.state
  pub held : IsHeld h.view.buffer
  pub dated : IsDated h.key.reload_token h.view.state

bump_if-same :
    (n : ℕ) (v : View) → ((bump_if n v).state.key ≡ v.state.key) × ((bump_if n v).buffer ≡ v.buffer)
unfolding bump_if
bump_if-same n v = ground arith

module _ {D : Type 0} where
  pub retire-IsAborted :
      (r : Option (Request D)) (rs : List (Request D))
      → All IsAborted rs
      → All IsAborted (retire r rs)
  unfolding retire abort
  retire-IsAborted none rs h = h
  retire-IsAborted (some r) [] h = (refl, tt)
  retire-IsAborted (some r) (x ∷ rs) h = (h.0, retire-IsAborted (some r) rs h.1)

  -- A hook without a run, before and after its effect.
  start_for-IsReached :
      (url : Option Text) (h : Hook D)
      → All IsAborted h.superseded
      → IsShown h.key h.current h.view.state
      → IsHeld h.view.buffer
      → IsDated h.key.reload_token h.view.state
      → IsReached (start_for url h)
  unfolding start_for
  start_for-IsReached none h all going held dated = record {
    retired = all;
    going = going;
    held = held;
    dated = dated;
  }
  start_for-IsReached (some url) h all going held dated = record {
    retired = all;
    going = (refl, refl, tt);
    held = clear-IsHeld h.view.buffer held;
    dated = dated;
  }

  pub restart-IsReached :
      (k : Key) (h : Hook D)
      → h.key.reload_token ≤ k.reload_token
      → IsReached h
      → IsReached (restart k h)
  unfolding restart
  restart-IsReached k h newer i =
      start_for-IsReached k.url
        (record h { key = k; current = none; superseded = retire h.current h.superseded })
        (retire-IsAborted h.current h.superseded i.retired) tt i.held (omega (arith, i.dated))

  mount-IsReached : (url : Option Text) → IsReached (mount {D = D} url)
  unfolding mount
  mount-IsReached url =
      let b = new_buffer-IsValid (record { max_lines = some 500000; page_size = none }) in
      start_for-IsReached url _ tt tt (b.0, unfold new_buffer in refl) (omega arith)

  bump_if-IsShown :
      (n : ℕ) (k : Key) (r : Option (Request D)) (v : View)
      → IsShown k r v.state
      → IsShown k r (bump_if n v).state
  unfolding bump_if
  bump_if-IsShown zero k r v h = h
  bump_if-IsShown (suc n) k none v h = tt
  bump_if-IsShown (suc n) k (some r) v h =
      (h.0, h.1, Shows-version r.phase k v.state (v.state.version + 1) h.2)

  prepend_earlier-IsReached :
      (t : Text) (h : Hook D) → IsReached h → IsReached (prepend_earlier t h).0
  unfolding prepend_earlier
  prepend_earlier-IsReached t h i =
      let v : View = record (h.view) { buffer = (prepend h.view.buffer t).0 } in
      let same = bump_if-same (prepend h.view.buffer t).1 v in
      record {
        retired = i.retired;
        going = bump_if-IsShown (prepend h.view.buffer t).1 h.key h.current v i.going;
        held = rw same.1 (prepend-IsHeld h.view.buffer t i.held);
        dated = rw same.0 i.dated;
      }

module _ {D : Type 0} (engine : Engine D) where
  settle_current-IsReached :
      (s : Settled) (c : Option (Request D)) (h : Hook D)
      → IsShown h.key c h.view.state
      → IsReached h
      → IsReached (settle_current engine s c h)
  unfolding settle_current settle_run
  settle_current-IsReached s none h going i = i
  settle_current-IsReached s (some r) h (live, own, shows) i =
      let (same_key, same_aborted) = settle-same engine s r.phase r h.view in
      let (v', r') = settle engine s r.phase r h.view in
      let after = settle-Shows engine s r.phase r h.view refl live (rw own shows) in
      record {
        retired = i.retired;
        going = (
          same_aborted ∙ live,
          same_key ∙ own,
          subst (λ k. Shows r'.phase (state_for k v'.state)) own after,
        );
        held = settle-IsHeld engine s r.phase r h.view i.held;
        dated =
            settle-IsDated engine h.key.reload_token s r.phase r h.view (rw own (omega arith))
              i.dated;
      }

  settle_late-IsReached :
      (n : ℕ) (s : Settled) (h : Hook D) → IsReached h → IsReached (settle_late engine n s h)
  unfolding settle_late
  settle_late-IsReached n s h i =
      let (same, aborted) = settle_at-state engine n s h.superseded h.view i.retired in
      record {
        retired = aborted;
        going = rw same i.going;
        held = settle_at-IsHeld engine n s h.superseded h.view i.held;
        dated = rw same i.dated;
      }

  render-IsReached : (url : Option Text) (h : Hook D) → IsReached h → IsReached (render url h)
  unfolding render
  render-IsReached url h i =
      let k : Key = record { url = url; reload_token = h.key.reload_token } in
      let moved = restart-IsReached k h (omega arith) i in
      elim (Bool-cases (same_key h.key k)) [ inl e ↦ rw e i | inr e ↦ rw e moved ]

  step-IsReached : (e : Event) (h : Hook D) → IsReached h → IsReached (step engine e h)
  unfolding step reload
  step-IsReached (renders url) h i = render-IsReached url h i
  step-IsReached reloads h i = restart-IsReached _ h (omega arith) i
  step-IsReached (prepends t) h i = prepend_earlier-IsReached t h i
  step-IsReached (settles s) h i = settle_current-IsReached s h.current h i.going i
  step-IsReached (late n s) h i = settle_late-IsReached n s h i

  steps-IsReached : (es : List Event) (h : Hook D) → IsReached h → IsReached (steps engine es h)
  unfolding steps
  steps-IsReached [] h i = i
  steps-IsReached (e ∷ es) h i = steps-IsReached es (step engine e h) (step-IsReached e h i)

  -- After any events, from the first render on: the runs that were superseded are aborted; the run of
  -- the effect is not aborted and is shown as it is, streaming while its body is read and at rest once
  -- it has ended; and the buffer is valid and made for 500000 lines.
  pub steps-mount-IsReached :
      (url : Option Text) (es : List Event) → IsReached (steps engine es (mount url))
  steps-mount-IsReached url es = steps-IsReached es (mount url) (mount-IsReached url)

  -- After any events, whatever a superseded run waits for can settle, the arrival of the whole text of
  -- a response without a body excepted: neither the buffer nor the state changes.
  pub late-view :
      (url : Option Text) (es : List Event) (i : ℕ) (s : Settled)
      → IsChecked s
      → (step engine (late i s) (steps engine es (mount url))).view
        ≡ (steps engine es (mount url)).view
  late-view url es i s c =
      settle_late-view engine i s (steps engine es (mount url))
        (steps-mount-IsReached url es).retired c
