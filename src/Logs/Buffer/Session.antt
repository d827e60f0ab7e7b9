-- ===== src/Logs/Buffer/Session.antt =====
-- A buffer under any sequence of calls.
use openshift_console.Prelude.{List, [], ◌∷◌, inl, inr}
use openshift_console.Prelude.Text.{Text}
use openshift_console.Logs.Buffer.{
  LogBuffer, LogBufferOptions, new_buffer, append, flush_partial, clear,
}
use openshift_console.Logs.Buffer.Front.{prepend}
use openshift_console.Logs.Buffer.View.{IsValid}
use openshift_console.Logs.Buffer.Stream.{append-Gains, flush_partial-Gains}
use openshift_console.Logs.Buffer.History.{prepend-Fronted, clear-IsValid, new_buffer-IsValid}

-- The calls that change a buffer.
pub data Call : Type 0 where
  appends : Text → Call
  flushes : Call
  prepends : Text → Call
  clears : Call

unfoldable pub perform : LogBuffer → Call → LogBuffer
perform b (appends chunk) = append b chunk
perform b flushes = flush_partial b
perform b (prepends chunk) = (prepend b chunk).0
perform b clears = clear b

unfoldable pub perform_all : LogBuffer → List Call → LogBuffer
unfolding perform
perform_all b [] = b
perform_all b (call ∷ calls) = perform_all (perform b call) calls

append-IsValid : (b : LogBuffer) (chunk : Text) → IsValid b → IsValid (append b chunk)
append-IsValid b [] v = unfold append in v
append-IsValid b (c ∷ chunk) v = (append-Gains b c chunk v).valid

flush_partial-IsValid : (b : LogBuffer) → IsValid b → IsValid (flush_partial b)
flush_partial-IsValid b v = elim (flush_partial-Gains b v) [
  | inl (_, same) ↦ rw same v
  | inr (_, g) ↦ g.valid
]

perform-IsValid : (b : LogBuffer) (call : Call) → IsValid b → IsValid (perform b call)
unfolding perform
perform-IsValid b (appends chunk) v = append-IsValid b chunk v
perform-IsValid b flushes v = flush_partial-IsValid b v
perform-IsValid b (prepends chunk) v = (prepend-Fronted b chunk v).0.valid
perform-IsValid b clears v = (clear-IsValid b v).0

perform_all-IsValid :
    (calls : List Call) (b : LogBuffer) → IsValid b → IsValid (perform_all b calls)
unfolding perform_all
perform_all-IsValid [] b v = v
perform_all-IsValid (call ∷ calls) b v =
    perform_all-IsValid calls (perform b call) (perform-IsValid b call v)

-- A new buffer stays valid under every sequence of calls: the index and the pages agree, the
-- reference counts are exact, and no extent leaves its page.
pub session-IsValid :
    (options : LogBufferOptions) (calls : List Call)
    → IsValid (perform_all (new_buffer options) calls)
session-IsValid options calls =
    perform_all-IsValid calls (new_buffer options) (new_buffer-IsValid options).0
