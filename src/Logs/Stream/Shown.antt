-- ===== src/Logs/Stream/Shown.antt =====
-- What the hook shows of its request, whatever happens to it.
use openshift_console.Prelude.{
  ℕ, ◌+◌, ◌≡◌, Bool, true, false, Option, none, some, refl, arith, Bool-cases, inl, inr,
}
use openshift_console.Prelude.Text.{Text}
use openshift_console.Prelude.Text.Equality.{same_refl}
use openshift_console.Logs.Buffer.{append, flush_partial}
use openshift_console.Logs.Stream.{
  Key, same_key, same_url, StreamState, pending_state, state_for, Engine, Phase, fetching, taking,
  ended, reading, Frame, idle, scheduled, cancelled, Request, View, update, bump, frame_fires,
  finish, caught, responds, takes_all, reads, reads_end, schedule_render, Settled, answered,
  got_text, got_bytes, got_end, threw, framed, settle, body_phase, Thrown, message_for, refusal,
  Response,
}

same_url_refl : (url : Option Text) → same_url url url ≡ true
same_url_refl none = refl
same_url_refl (some url) = same_refl url

pub same_key_refl : (k : Key) → same_key k k ≡ true
unfolding same_key
same_key_refl k = rw (same_url_refl k.url) (ground arith)

same_key-state_for : (k : Key) (st : StreamState) → same_key (state_for k st).key k ≡ true
unfolding state_for
same_key-state_for k st = elim (Bool-cases (same_key st.key k)) [
  | inl e ↦ rw e e
  | inr e ↦ rw (e, pending_state) (same_key_refl k)
]

-- A state of this key is itself.
state_for_own : (k : Key) (st : StreamState) → same_key st.key k ≡ true → state_for k st ≡ st
unfolding state_for
state_for_own k st h = rw h refl

abbrev pub ShowsStreaming : Bool → StreamState → Type 0
ShowsStreaming b st = (st.loading ≡ false) × (st.streaming ≡ b)

-- What is shown in a phase; a request that was not answered yet can show an older state of its key.
abbrev pub Shows : {D : Type 0} → Phase D → StreamState → Type 0
Shows fetching st = Unit
Shows taking st = ShowsStreaming true st
Shows (reading d) st = ShowsStreaming true st
Shows ended st = ShowsStreaming false st

abbrev pub IsShown : {D : Type 0} → Key → Option (Request D) → StreamState → Type 0
IsShown k none st = Unit
IsShown k (some r) st = (r.aborted ≡ false) × (r.key ≡ k) × Shows r.phase (state_for k st)

-- A patch that leaves the key alone is what is shown after an update.
pub state_for-patch :
    (k : Key) (st st' : StreamState) → st'.key ≡ (state_for k st).key → state_for k st' ≡ st'
state_for-patch k st st' e = state_for_own k st' (rw e (same_key-state_for k st))

module _ {D : Type 0} where
  -- Both flags after `finally`.
  finish-Shows :
      (r : Request D) (v : View)
      → r.aborted ≡ false
      → ShowsStreaming false (state_for r.key (finish r v).0.state)
  unfolding finish update
  finish-Shows r v live =
      let st : StreamState = record (state_for r.key v.state) {
        loading = false;
        streaming = false;
      } in
      rw live (rw (state_for-patch r.key v.state st refl) (refl, refl))

  pub Shows-version :
      (p : Phase D) (k : Key) (st : StreamState) (n : ℕ)
      → Shows p (state_for k st)
      → Shows p (state_for k (record st { version = n }))
  unfolding state_for
  Shows-version p k st n h = elim (Bool-cases (same_key st.key k)) [
    | inl e ↦ ground arith
    | inr e ↦ ground arith
  ]

  caught-Shows :
      (e : Thrown) (r : Request D) (v : View)
      → r.aborted ≡ false
      → ShowsStreaming false (state_for r.key (caught e r v).0.state)
  unfolding caught
  caught-Shows e r v live =
      let shown_after =
        finish-Shows r (update (λ s. record s { error = some (message_for e) }) r v) live in
      ground arith

  caught-ended : (e : Thrown) (r : Request D) (v : View) → (caught e r v).1.phase ≡ ended
  unfolding caught finish
  caught-ended e r v = ground arith

  bump-Shows :
      (r : Request D) (v : View)
      → Shows r.phase (state_for r.key v.state)
      → Shows r.phase (state_for r.key (bump r v).state)
  unfolding bump
  bump-Shows r v h =
      let more = Shows-version r.phase r.key v.state (v.state.version + 1) h in ground arith

  frame_fires-Shows :
      (f : Frame) (r : Request D) (v : View)
      → Shows r.phase (state_for r.key v.state)
      → Shows (frame_fires f r v).1.phase (state_for r.key (frame_fires f r v).0.state)
  unfolding frame_fires
  frame_fires-Shows scheduled r v h = bump-Shows r v h
  frame_fires-Shows idle r v h = h
  frame_fires-Shows cancelled r v h = h

module _ {D : Type 0} (engine : Engine D) where
  body_phase-Shows :
      (has_body : Bool) (st : StreamState)
      → ShowsStreaming true st
      → Shows (body_phase engine has_body) st
  body_phase-Shows true st h = h
  body_phase-Shows false st h = h

  responds-Shows :
      (response : Response) (r : Request D) (v : View)
      → r.aborted ≡ false
      → Shows
          (responds engine response r v).1.phase
          (state_for r.key (responds engine response r v).0.state)
  unfolding responds update
  responds-Shows response r v live =
      let st : StreamState = record (state_for r.key v.state) {
        loading = false;
        streaming = true;
      } in
      let e = refusal engine response in
      let streams =
        body_phase-Shows response.has_body (state_for r.key st)
          (rw (state_for-patch r.key v.state st refl) (refl, refl)) in
      let failed = caught-Shows e r v live in
      let over = caught-ended e r v in
      elim (Bool-cases response.ok) [ inl ok ↦ ground arith | inr refused ↦ ground arith ]

  pub settle-Shows :
      (s : Settled) (p : Phase D) (r : Request D) (v : View)
      → r.phase ≡ p
      → r.aborted ≡ false
      → Shows p (state_for r.key v.state)
      → Shows (settle engine s p r v).1.phase (state_for r.key (settle engine s p r v).0.state)
  unfolding settle takes_all reads reads_end schedule_render finish
  settle-Shows framed p r v e live h = frame_fires-Shows r.frame r v (rw e h)
  settle-Shows (threw t) ended r v e live h = rw e h
  settle-Shows (threw t) fetching r v e live h = rw (caught-ended t r v) (caught-Shows t r v live)
  settle-Shows (threw t) taking r v e live h = rw (caught-ended t r v) (caught-Shows t r v live)
  settle-Shows (threw t) (reading d) r v e live h =
      rw (caught-ended t r v) (caught-Shows t r v live)
  settle-Shows (answered response) fetching r v e live h = responds-Shows response r v live
  settle-Shows (got_text text) taking r v e live h =
      finish-Shows (schedule_render r) (record v { buffer = flush_partial (append v.buffer text) })
        live
  settle-Shows (got_bytes bytes) (reading d) r v e live h = rw live h
  settle-Shows got_end (reading d) r v e live h =
      let over =
        finish-Shows (schedule_render r)
          (record v { buffer = flush_partial (append v.buffer (engine.decode_rest d)) }) live in
      ground arith
  settle-Shows _ p r v e live h = rw e h
