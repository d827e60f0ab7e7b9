-- ===== src/Logs/Stream/Held.antt =====
-- The buffer and the key of the state, over the steps of a run.
use openshift_console.Prelude.{
  ℕ, zero, suc, ◌≤◌, ◌≡◌, ◌∷◌, Bool, true, false, List, [], ◌∙◌, arith, inl, inr, if◌then◌else◌,
}
use openshift_console.Prelude.Text.{Text}
use openshift_console.Logs.Buffer.{LogBuffer, append, flush_partial, clear}
use openshift_console.Logs.Buffer.Front.{prepend}
use openshift_console.Logs.Buffer.View.{IsValid}
use openshift_console.Logs.Buffer.Stream.{append-Gains, flush_partial-Gains}
use openshift_console.Logs.Buffer.History.{prepend-Fronted, clear-IsValid}
use openshift_console.Logs.Stream.{
  StreamState, state_for, Engine, Phase, fetching, taking, reading, Frame, Request, View, update,
  bump, frame_fires, finish, caught, responds, takes_all, reads, reads_end, schedule_render,
  Settled, answered, got_text, got_bytes, got_end, threw, framed, settle, Thrown, Response,
}
use openshift_console.Logs.Stream.Hook.{settle_run, settle_at}

-- A buffer that holds lines, at most as many as the hook asked for.
abbrev pub IsHeld : LogBuffer → Type 0
IsHeld b = IsValid b × (b.max_lines ≡ 500000)

pub append-IsHeld : (b : LogBuffer) (t : Text) → IsHeld b → IsHeld (append b t)
append-IsHeld b [] h = unfold append in h
append-IsHeld b (c ∷ t) h = let g = append-Gains b c t h.0 in (g.valid, g.same_max ∙ h.1)

pub flush_partial-IsHeld : (b : LogBuffer) → IsHeld b → IsHeld (flush_partial b)
flush_partial-IsHeld b h = elim (flush_partial-Gains b h.0) [
  | inl (_, same) ↦ rw same h
  | inr (_, g) ↦ (g.valid, g.same_max ∙ h.1)
]

pub prepend-IsHeld : (b : LogBuffer) (t : Text) → IsHeld b → IsHeld (prepend b t).0
prepend-IsHeld b t h = let g = (prepend-Fronted b t h.0).0 in (g.valid, g.same_max ∙ h.1)

pub clear-IsHeld : (b : LogBuffer) → IsHeld b → IsHeld (clear b)
clear-IsHeld b h = ((clear-IsValid b h.0).0, unfold clear in h.1)

module _ {D : Type 0} where
  pub update-buffer :
      (patch : StreamState → StreamState) (r : Request D) (v : View)
      → (update patch r v).buffer ≡ v.buffer
  unfolding update
  update-buffer patch r v = ground arith

  caught-buffer : (e : Thrown) (r : Request D) (v : View) → (caught e r v).0.buffer ≡ v.buffer
  unfolding caught finish update
  caught-buffer e r v = ground arith

  frame_fires-buffer :
      (f : Frame) (r : Request D) (v : View) → (frame_fires f r v).0.buffer ≡ v.buffer
  unfolding frame_fires bump
  frame_fires-buffer f r v = ground arith

module _ {D : Type 0} (engine : Engine D) where
  pub takes_all-IsHeld :
      (t : Text) (r : Request D) (v : View)
      → IsHeld v.buffer
      → IsHeld (takes_all engine t r v).0.buffer
  unfolding takes_all finish
  takes_all-IsHeld t r v h =
      let b = flush_partial-IsHeld (append v.buffer t) (append-IsHeld v.buffer t h) in
      rw (update-buffer _ _ _) b

  responds-buffer :
      (response : Response) (r : Request D) (v : View)
      → (responds engine response r v).0.buffer ≡ v.buffer
  unfolding responds caught finish update
  responds-buffer response r v = ground arith

  held_if :
      (b : Bool) (x y : View × Request D)
      → IsHeld x.0.buffer
      → IsHeld y.0.buffer
      → IsHeld (if b then x else y).0.buffer
  held_if true x y hx hy = hx
  held_if false x y hx hy = hy

  pub settle-IsHeld :
      (s : Settled) (p : Phase D) (r : Request D) (v : View)
      → IsHeld v.buffer
      → IsHeld (settle engine s p r v).0.buffer
  unfolding settle reads reads_end finish
  settle-IsHeld framed p r v h = rw (frame_fires-buffer r.frame r v) h
  settle-IsHeld (threw t) fetching r v h = rw (caught-buffer t r v) h
  settle-IsHeld (threw t) taking r v h = rw (caught-buffer t r v) h
  settle-IsHeld (threw t) (reading d) r v h = rw (caught-buffer t r v) h
  settle-IsHeld (answered response) fetching r v h = rw (responds-buffer response r v) h
  settle-IsHeld (got_text t) taking r v h = takes_all-IsHeld t r v h
  settle-IsHeld (got_bytes bytes) (reading d) r v h =
      let same = update-buffer (λ s. record s { loading = false; streaming = false }) r v in
      let more = append-IsHeld v.buffer (engine.decode d bytes).1 h in
      held_if r.aborted _ _ (rw same h) more
  settle-IsHeld got_end (reading d) r v h =
      let same = update-buffer (λ s. record s { loading = false; streaming = false }) r v in
      let more = takes_all-IsHeld (engine.decode_rest d) r v h in
      held_if r.aborted _ _ (rw same h) more
  settle-IsHeld _ p r v h = h

  pub settle_at-IsHeld :
      (i : ℕ) (s : Settled) (rs : List (Request D)) (v : View)
      → IsHeld v.buffer
      → IsHeld (settle_at engine i s rs v).0.buffer
  unfolding settle_at settle_run
  settle_at-IsHeld i s [] v h = h
  settle_at-IsHeld zero s (r ∷ rs) v h = settle-IsHeld s r.phase r v h
  settle_at-IsHeld (suc i) s (r ∷ rs) v h = settle_at-IsHeld i s rs v h

-- No state is of a key that is still to come.
abbrev pub IsDated : ℕ → StreamState → Type 0
IsDated n st = st.key.reload_token ≤ n

module _ {D : Type 0} (engine : Engine D) (n : ℕ) where
  pub settle-IsDated :
      (s : Settled) (p : Phase D) (r : Request D) (v : View)
      → r.key.reload_token ≤ n
      → IsDated n v.state
      → IsDated n (settle engine s p r v).0.state
  unfolding settle responds caught reads reads_end takes_all finish frame_fires schedule_render
      update bump state_for
  settle-IsDated s p r v hk h = ground arith
