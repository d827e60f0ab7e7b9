-- ===== src/Logs/Stream.antt =====
-- plugins/logging/src/logs/useLogStream.ts: the hook `useLogStream`, as the steps that its
-- continuations take. `D` is the state of a decoder.
pub mod Hook
pub mod Superseded
pub mod Shown
pub mod Held
pub mod Reach
pub mod Reading
pub mod Quiet
pub mod Whole
mod Tests
use openshift_console.Prelude.{
  ℕ, ◌+◌, ◌&&◌, Bool, true, false, List, [], ◌∷◌, ◌++◌, Option, none, some, ◌==◌, if◌then◌else◌,
}
use openshift_console.Prelude.Text.{Text, same, codes}
use openshift_console.Logs.Buffer.{LogBuffer, append, flush_partial}

-- The two parts of `key`; two of its texts are equal exactly if both parts are.
pub record Key : Type 0 where
  pub url : Option Text
  pub reload_token : ℕ

abbrev pub same_url : Option Text → Option Text → Bool
same_url none none = true
same_url (some s) (some t) = same s t
same_url _ _ = false

unfoldable pub same_key : Key → Key → Bool
same_key k l = same_url k.url l.url && (k.reload_token == l.reload_token)

pub record StreamState : Type 0 where
  pub key : Key
  pub version : ℕ
  pub loading : Bool
  pub streaming : Bool
  pub error : Option Text

abbrev pub pending_state : Key → StreamState
pending_state key = record {
  key = key;
  version = 0;
  loading = true;
  streaming = false;
  error = none;
}

-- What is thrown: an `Error` with its message, or another value with its text.
pub data Thrown : Type 0 where
  an_error another : Text → Thrown

abbrev pub message_for : Thrown → Text
message_for (an_error message) = message
message_for (another text) = text

pub record Response : Type 0 where
  pub ok : Bool
  pub status : ℕ
  pub status_text : Text
  pub has_body : Bool

-- `String` of a number, and `TextDecoder`.
pub record Engine (D : Type 0) : Type 0 where
  pub show : ℕ → Text
  pub fresh : D
  pub decode : D → List ℕ → D × Text
  pub decode_rest : D → Text

-- What `run` waits for: the response, all of its text, or the next read.
pub data Phase (D : Type 0) : Type 0 where
  fetching taking ended : Phase D
  reading : D → Phase D

-- `cancelActiveFrame`: null, or the callback of a frame to come or of one that was cancelled.
pub data Frame : Type 0 where
  idle scheduled cancelled : Frame

-- One run of the effect.
pub record Request (D : Type 0) : Type 0 where
  pub key : Key
  pub phase : Phase D
  pub aborted : Bool
  pub frame : Frame

-- The buffer and the state, which all runs share.
pub record View : Type 0 where
  pub buffer : LogBuffer
  pub state : StreamState

-- The previous state where it is this key's, else the pending one.
unfoldable pub state_for : Key → StreamState → StreamState
state_for key previous = if same_key previous.key key then previous else pending_state key

unfoldable pub schedule : Frame → Frame
schedule idle = scheduled
schedule f = f

unfoldable pub cancel : Frame → Frame
cancel scheduled = cancelled
cancel f = f

-- How what `run` waits for can settle, or a frame that it asked for.
pub data Settled : Type 0 where
  answered : Response → Settled
  got_text : Text → Settled
  got_bytes : List ℕ → Settled
  got_end : Settled
  threw : Thrown → Settled
  framed : Settled

module _ {D : Type 0} where
  unfoldable pub update : (StreamState → StreamState) → Request D → View → View
  update patch r v = if r.aborted then v else record v { state = patch (state_for r.key v.state) }

  unfoldable pub schedule_render : Request D → Request D
  schedule_render r = record r { frame = schedule r.frame }

  -- What the callback of a frame does.
  unfoldable pub bump : Request D → View → View
  bump r v =
      if r.aborted
      then v
      else if same_key v.state.key r.key
      then record v { state = record (v.state) { version = v.state.version + 1 } }
      else v

  unfoldable pub frame_fires : Frame → Request D → View → View × Request D
  frame_fires scheduled r v = (bump r v, record r { frame = idle })
  frame_fires _ r v = (v, r)

  -- The `finally` of `run`.
  unfoldable pub finish : Request D → View → View × Request D
  finish r v = (
    update (λ s. record s { loading = false; streaming = false }) r v,
    record r { phase = ended },
  )

  -- The `catch` of `run`.
  unfoldable pub caught : Thrown → Request D → View → View × Request D
  caught e r v =
      if r.aborted
      then finish r v
      else finish r (update (λ s. record s { error = some (message_for e) }) r v)

-- `||` on texts.
abbrev pub text_or : Text → Text → Text
text_or [] other = other
text_or (c ∷ s) other = c ∷ s

module _ {D : Type 0} (engine : Engine D) where
  unfoldable pub refusal : Response → Thrown
  refusal response =
      an_error
        (engine.show response.status ++ 32 ∷ text_or response.status_text (codes "request failed"))

  abbrev pub body_phase : Bool → Phase D
  body_phase true = reading engine.fresh
  body_phase false = taking

  unfoldable pub responds : Response → Request D → View → View × Request D
  responds response r v =
      if r.aborted
      then finish r v
      else if response.ok
      then (
        update (λ s. record s { loading = false; streaming = true }) r v,
        record r { phase = body_phase response.has_body },
      )
      else caught (refusal response) r v

  -- `appended` and its last line, with a frame asked for.
  unfoldable pub takes_all : Text → Request D → View → View × Request D
  takes_all text r v =
      finish (schedule_render r) (record v { buffer = flush_partial (append v.buffer text) })

  unfoldable pub reads : D → List ℕ → Request D → View → View × Request D
  reads d bytes r v = if r.aborted then finish r v else (
    record v { buffer = append v.buffer (engine.decode d bytes).1 },
    record (schedule_render r) { phase = reading (engine.decode d bytes).0 },
  )

  unfoldable pub reads_end : D → Request D → View → View × Request D
  reads_end d r v = if r.aborted then finish r v else takes_all (engine.decode_rest d) r v

  -- What does not settle what is waited for cannot happen, and changes nothing.
  unfoldable pub settle : Settled → Phase D → Request D → View → View × Request D
  settle framed p r v = frame_fires r.frame r v
  settle (threw e) ended r v = (v, r)
  settle (threw e) p r v = caught e r v
  settle (answered response) fetching r v = responds response r v
  settle (got_text text) taking r v = takes_all text r v
  settle (got_bytes bytes) (reading d) r v = reads d bytes r v
  settle got_end (reading d) r v = reads_end d r v
  settle _ p r v = (v, r)
