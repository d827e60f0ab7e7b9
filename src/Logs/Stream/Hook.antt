-- ===== src/Logs/Stream/Hook.antt =====
-- plugins/logging/src/logs/useLogStream.ts: the effect of the hook, its cleanup, and what it returns.
use openshift_console.Prelude.{
  ℕ, zero, suc, ◌+◌, true, false, List, [], ◌∷◌, ◌++◌, Option, none, some, if◌then◌else◌,
}
use openshift_console.Prelude.Text.{Text}
use openshift_console.Logs.Buffer.{new_buffer, clear}
use openshift_console.Logs.Buffer.Front.{prepend}
use openshift_console.Logs.Stream.{
  Key, same_key, StreamState, pending_state, Engine, fetching, idle, cancel, Request, View,
  state_for, Settled, settle,
}

-- The hook between two events: what it was rendered with, and its runs.
pub record Hook (D : Type 0) : Type 0 where
  pub view : View
  pub key : Key
  pub current : Option (Request D)
  pub superseded : List (Request D)

unfoldable pub bump_if : ℕ → View → View
bump_if zero v = v
bump_if (suc n) v = record v { state = record (v.state) { version = v.state.version + 1 } }

module _ {D : Type 0} where
  -- The effect, for a key that the hook was rendered with.
  unfoldable pub start_for : Option Text → Hook D → Hook D
  start_for none h = h
  start_for (some url) h = record h {
    view = record (h.view) { buffer = clear h.view.buffer };
    current = some (record { key = h.key; phase = fetching; aborted = false; frame = idle });
  }

  unfoldable pub abort : Request D → Request D
  abort r = record r { aborted = true; frame = cancel r.frame }

  unfoldable pub retire : Option (Request D) → List (Request D) → List (Request D)
  retire none rs = rs
  retire (some r) rs = rs ++ abort r ∷ []

  -- The cleanup of one effect, and the next effect.
  unfoldable pub restart : Key → Hook D → Hook D
  restart key h =
      start_for key.url
        (record h { key = key; current = none; superseded = retire h.current h.superseded })

  unfoldable pub render : Option Text → Hook D → Hook D
  render url h =
      let key : Key = record { url = url; reload_token = h.key.reload_token } in
      if same_key h.key key then h else restart key h

  unfoldable pub reload : Hook D → Hook D
  reload h = restart (record { url = h.key.url; reload_token = h.key.reload_token + 1 }) h

  unfoldable pub prepend_earlier : Text → Hook D → Hook D × ℕ
  prepend_earlier chunk h =
      let (buffer, added) = prepend h.view.buffer chunk in
      (record h { view = bump_if added (record (h.view) { buffer = buffer }) }, added)

  -- What the hook returns of its state.
  unfoldable pub shown : Hook D → StreamState
  shown h = state_for h.key h.view.state

  unfoldable pub mount : Option Text → Hook D
  mount url =
      let key : Key = record { url = url; reload_token = 0 } in
      start_for url (record {
        view = record {
          buffer = new_buffer (record { max_lines = some 500000; page_size = none });
          state = pending_state key;
        };
        key = key;
        current = none;
        superseded = [];
      })

-- What happens to a hook. `late` is about a run that another has superseded.
pub data Event : Type 0 where
  renders : Option Text → Event
  reloads : Event
  prepends : Text → Event
  settles : Settled → Event
  late : ℕ → Settled → Event

module _ {D : Type 0} (engine : Engine D) where
  unfoldable pub settle_run : Settled → Request D → View → View × Request D
  settle_run s r v = settle engine s r.phase r v

  unfoldable pub settle_current : Settled → Option (Request D) → Hook D → Hook D
  settle_current s none h = h
  settle_current s (some r) h =
      let (v, r') = settle_run s r h.view in record h { view = v; current = some r' }

  -- The run at `i` of those that are superseded.
  unfoldable pub settle_at : ℕ → Settled → List (Request D) → View → View × List (Request D)
  settle_at i s [] v = (v, [])
  settle_at zero s (r ∷ rs) v = let (v', r') = settle_run s r v in (v', r' ∷ rs)
  settle_at (suc i) s (r ∷ rs) v = let (v', rs') = settle_at i s rs v in (v', r ∷ rs')

  unfoldable pub settle_late : ℕ → Settled → Hook D → Hook D
  settle_late i s h =
      let (v, rs) = settle_at i s h.superseded h.view in record h { view = v; superseded = rs }

  unfoldable pub step : Event → Hook D → Hook D
  step (renders url) h = render url h
  step reloads h = reload h
  step (prepends chunk) h = (prepend_earlier chunk h).0
  step (settles s) h = settle_current s h.current h
  step (late i s) h = settle_late i s h

  unfoldable pub steps : List Event → Hook D → Hook D
  steps [] h = h
  steps (e ∷ es) h = steps es (step e h)
