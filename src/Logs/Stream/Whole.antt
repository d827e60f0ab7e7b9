-- ===== src/Logs/Stream/Whole.antt =====
-- A request from its start to its end.
use openshift_console.Prelude.{
  All, ℕ, ◌+◌, ◌≡◌, ◌++◌, ◌∷◌, true, false, List, [], Option, none, some, refl, ap, sym, ◌∙◌, arith,
  append-nil, append_assoc,
}
use mathlib.Core.Path.{subst}
use openshift_console.Prelude.Text.{Text}
use openshift_console.Logs.Buffer.{append, clear}
use openshift_console.Logs.Buffer.View.{lines}
use openshift_console.Logs.Buffer.Spec.{whole_lines, remainder, newest}
use openshift_console.Logs.Stream.{
  Key, same_key, StreamState, state_for, Engine, reading, Frame, schedule, Request, View, update,
  finish, caught, responds, takes_all, reads, reads_end, schedule_render, Settled, answered,
  got_bytes, got_end, threw, settle, Thrown, fetching, Response, message_for, idle,
}
use openshift_console.Logs.Stream.Hook.{
  Hook, shown, start_for, retire, restart, reload, mount, Event, reloads, settles, settle_run,
  settle_current, step, steps,
}
use openshift_console.Logs.Stream.Shown.{state_for-patch}
use openshift_console.Logs.Stream.Held.{IsDated}
use openshift_console.Logs.Stream.Reach.{retire-IsAborted, IsReached, steps-mount-IsReached}
use openshift_console.Logs.Stream.Reading.{
  clear-HasRead, append-HasRead, flush_partial-HasRead, last_line,
}
use openshift_console.Logs.Stream.Quiet.{IsQuiet, hook_at, GoesOn, quiet_lem}

-- How the reading of a body ends: at its end, or with something thrown.
abbrev pub ending : Option Thrown → Settled
ending none = got_end
ending (some e) = threw e

-- The reads of a body, each with what happens before it.
abbrev pub Pieces : Type 0
Pieces = List (List Event × List ℕ)

abbrev pub AreQuiet : Pieces → Type 0
AreQuiet [] = Unit
AreQuiet ((between, bytes) ∷ more) = All IsQuiet between × AreQuiet more

-- The reads, and the end with what happens before it.
abbrev pub arrivals : Pieces → List Event → Option Thrown → List Event
arrivals [] last e = last ++ settles (ending e) ∷ []
arrivals ((between, bytes) ∷ more) last e =
    between ++ settles (got_bytes bytes) ∷ arrivals more last e

abbrev pub message_of : Option Thrown → Option Text
message_of none = none
message_of (some e) = some (message_for e)

module _ {D : Type 0} (engine : Engine D) where
  -- What the decoder makes of a body, and of its rest if it comes to its end.
  abbrev pub decoded : D → Pieces → Option Thrown → Text
  decoded d [] none = engine.decode_rest d
  decoded d [] (some e) = []
  decoded d ((between, bytes) ∷ more) e =
      (engine.decode d bytes).1 ++ decoded (engine.decode d bytes).0 more e

  -- The lines of a text that was read to its end, or up to where it broke off.
  abbrev pub lines_read : Text → Option Thrown → List Text
  lines_read t none = whole_lines t ++ last_line (remainder t)
  lines_read t (some e) = whole_lines t

  -- A request that is over.
  pub record IsOver (h : Hook D) (t : Text) (e : Option Thrown) : Type 0 where
    pub kept : lines h.view.buffer ≡ newest 500000 (lines_read t e)
    pub loaded : (shown h).loading ≡ false
    pub closed : (shown h).streaming ≡ false
    pub failed : (shown h).error ≡ message_of e

  module _ (k : Key) where
    ends_lem :
        (e : Option Thrown) (d : D) (rs : List (Request D)) (f : Frame) (v : View) (t : Text)
        → GoesOn k rs v t
        → IsOver
            (step engine (settles (ending e)) (hook_at k (reading d) rs f v))
            (t ++ decoded d [] e)
            e
    unfolding step settle_current settle_run settle reads_end takes_all finish caught update
        schedule_render shown
    ends_lem none d rs f v t (rest, h, quiet) =
        let st : StreamState = record (state_for k v.state) {
          loading = false;
          streaming = false;
        } in
        let own = state_for-patch k v.state st refl in
        record {
          kept =
              flush_partial-HasRead 500000 _ _
                (append-HasRead 500000 v.buffer t (engine.decode_rest d) h);
          loaded = ap (λ s. s.loading) own;
          closed = ap (λ s. s.streaming) own;
          failed = ap (λ s. s.error) own ∙ quiet;
        }
    ends_lem (some e) d rs f v t (rest, h, quiet) =
        let st : StreamState = record (state_for k v.state) { error = some (message_for e) } in
        let own = state_for-patch k v.state st refl in
        let own' : state_for k (record (state_for k st) { loading = false; streaming = false })
            ≡ record (state_for k st) { loading = false; streaming = false } =
          state_for-patch k st _ refl in
        record {
          kept = h.shown ∙ ap (λ u. newest 500000 (whole_lines u)) (sym (append-nil t));
          loaded = ap (λ s. s.loading) own';
          closed = ap (λ s. s.streaming) own';
          failed = ap (λ s. s.error) own' ∙ ap (λ s. s.error) own;
        }

    arrivals_lem :
        (more : Pieces) (last : List Event) (e : Option Thrown) (d : D) (rs : List (Request D))
        (f : Frame) (v : View) (t : Text)
        → AreQuiet more
        → All IsQuiet last
        → GoesOn k rs v t
        → IsOver
            (steps engine (arrivals more last e) (hook_at k (reading d) rs f v))
            (t ++ decoded d more e)
            e
    unfolding steps step settle_current settle_run settle reads schedule_render
    arrivals_lem [] last e d rs f v t hs h g =
        quiet_lem engine k last (settles (ending e) ∷ []) (reading d) rs f v t
          (λ w. IsOver w (t ++ decoded d [] e) e) h g (λ rs' f' v' g'. ends_lem e d rs' f' v' t g')
    arrivals_lem ((between, bytes) ∷ more) last e d rs f v t (b, hs) h g =
        let (d', u) = engine.decode d bytes in
        quiet_lem engine k between (settles (got_bytes bytes) ∷ arrivals more last e) (reading d) rs
          f v t (λ w. IsOver w (t ++ (u ++ decoded d' more e)) e) b g
          (λ rs' f' v' (rest, read, quiet).
            subst
              (λ w.
                IsOver
                  (steps engine (arrivals more last e)
                    (step engine (settles (got_bytes bytes)) (hook_at k (reading d) rs' f' v')))
                  w e)
              (append_assoc t u (decoded d' more e))
              (arrivals_lem more last e d' rs' (schedule f')
                (record v' { buffer = append v'.buffer u }) (t ++ u) hs h
                (rest, append-HasRead 500000 v'.buffer t u read, quiet)))

    answered_lem :
        (response : Response) (more : Pieces) (last : List Event) (e : Option Thrown)
        (rs : List (Request D)) (f : Frame) (v : View)
        → response.ok ≡ true
        → response.has_body ≡ true
        → AreQuiet more
        → All IsQuiet last
        → GoesOn k rs v []
        → IsOver
            (steps engine
              (settles (answered response) ∷ arrivals more last e)
              (hook_at k fetching rs f v))
            (decoded engine.fresh more e)
            e
    unfolding steps step settle_current settle_run settle responds update
    answered_lem response more last e rs f v ok has_body hs h (rest, read, quiet) =
        let st : StreamState = record (state_for k v.state) { loading = false; streaming = true } in
        let own = state_for-patch k v.state st refl in
        rw (ok, has_body)
          (arrivals_lem more last e engine.fresh rs f (record v { state = st }) [] hs h
            (rest, read, ap (λ s. s.error) own ∙ quiet))

  -- A state of an earlier key is as good as none.
  state_for-later :
      (k : Key) (st : StreamState)
      → IsDated k.reload_token st
      → (state_for (record k { reload_token = k.reload_token + 1 }) st).error ≡ none
  unfolding state_for same_key
  state_for-later k st h = ground arith

  -- A hook that is reloaded.
  module _ (h : Hook D) where
    abbrev next_key : Key
    next_key = record { url = h.key.url; reload_token = h.key.reload_token + 1 }

    abbrev cleared_view : View
    cleared_view = record (h.view) { buffer = clear h.view.buffer }

    reload-hook_at :
        (url : Text)
        → h.key.url ≡ some url
        → step engine reloads h
          ≡ hook_at next_key fetching (retire h.current h.superseded) idle cleared_view
    unfolding step reload restart start_for
    reload-hook_at url e = rw e refl

    reload-GoesOn : IsReached h → GoesOn next_key (retire h.current h.superseded) cleared_view []
    reload-GoesOn i = (
      retire-IsAborted h.current h.superseded i.retired,
      rw⁻¹ i.held.1 (clear-HasRead h.view.buffer i.held.0),
      state_for-later h.key h.view.state i.dated,
    )

  -- After any events at a hook with a URL: a reload whose response is accepted and has a body comes to
  -- an end with the body, however it is cut into pieces, or with what is thrown while it is read, if
  -- nothing happens in between but frames and what comes of superseded runs, the arrival of the whole
  -- text of a response without a body excepted. The hook then shows that nothing is loading or
  -- streaming, no error or the one that was thrown, and the newest 500000 lines of what was decoded,
  -- with the last line if the body came to its end.
  pub reload-ends :
      (mounted : Option Text) (es : List Event) (url : Text) (before : List Event)
      (response : Response) (more : Pieces) (last : List Event) (e : Option Thrown)
      → (steps engine es (mount mounted)).key.url ≡ some url
      → response.ok ≡ true
      → response.has_body ≡ true
      → All IsQuiet before
      → AreQuiet more
      → All IsQuiet last
      → IsOver
          (steps engine
            (reloads ∷ (before ++ settles (answered response) ∷ arrivals more last e))
            (steps engine es (mount mounted)))
          (decoded engine.fresh more e)
          e
  unfolding steps
  reload-ends mounted es url before response more last e has_url ok has_body b hs l =
      let h = steps engine es (mount mounted) in
      let rs = retire h.current h.superseded in
      let after = before ++ settles (answered response) ∷ arrivals more last e in
      subst (λ w. IsOver (steps engine after w) (decoded engine.fresh more e) e)
        (sym (reload-hook_at h url has_url))
        (quiet_lem engine (next_key h) before (settles (answered response) ∷ arrivals more last e)
          fetching rs idle (cleared_view h) [] (λ w. IsOver w (decoded engine.fresh more e) e) b
          (reload-GoesOn h (steps-mount-IsReached engine mounted es))
          (λ rs' f' v' g.
            answered_lem (next_key h) response more last e rs' f' v' ok has_body hs l g))
