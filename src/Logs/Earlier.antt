-- ===== src/Logs/Earlier.antt =====
-- plugins/logging/src/logs/useEarlierPages.ts: the hook `useEarlierPages`, as the steps that its
-- calls and its continuations take.
pub mod Flight
pub mod Page
mod Tests
use openshift_console.Prelude.{
  ℕ, zero, suc, ◌+◌, ◌&&◌, Bool, true, false, List, [], ◌∷◌, ◌++◌, Option, none, some, ◌==◌,
  if◌then◌else◌, length,
}
use openshift_console.Prelude.Text.{Text, same, join}
use openshift_console.Logs.Buffer.{LogBuffer, newline}
use openshift_console.Logs.Buffer.Front.{prepend}
use openshift_console.Logs.Stream.{Thrown, message_for}

pub record PagingState : Type 0 where
  pub key : Text
  pub loading : Bool
  pub can_load : Bool
  pub error : Option Text

abbrev pub fresh_state : Text → PagingState
fresh_state key = record { key = key; loading = false; can_load = true; error = none }

-- A call of `fetchEarlier` that is under way: its controller, which the number tells from others,
-- and the key at the time of the call.
pub record Fetch : Type 0 where
  pub controller : ℕ
  pub key : Text
  pub aborted : Bool

-- The hook between two events, with the buffer that `prepend` adds to. `made` counts the controllers.
pub record Paging : Type 0 where
  pub reset_key : Text
  pub state : PagingState
  pub in_flight : Option ℕ
  pub fetches : List Fetch
  pub made : ℕ
  pub buffer : LogBuffer

unfoldable pub state_for : Text → PagingState → PagingState
state_for key previous = if same previous.key key then previous else fresh_state key

unfoldable pub update : Text → (PagingState → PagingState) → Paging → Paging
update key patch p = record p { state = patch (state_for key p.state) }

-- The body of `loadEarlier`, for what `inFlight` holds.
unfoldable pub load_unless : Option ℕ → Paging → Paging
load_unless (some controller) p = p
load_unless none p =
    update p.reset_key (λ s. record s { loading = true; error = none })
      (record p {
        in_flight = some p.made;
        fetches =
            p.fetches ++ record { controller = p.made; key = p.reset_key; aborted = false } ∷ [];
        made = suc p.made;
      })

unfoldable pub load_earlier : Paging → Paging
load_earlier p = load_unless p.in_flight p

abbrev pub is_controller : Option ℕ → ℕ → Bool
is_controller none n = false
is_controller (some m) n = m == n

-- The `finally`.
unfoldable pub finish : Fetch → Paging → Paging
finish f p =
    let cleared = record p { in_flight = none } in
    if is_controller p.in_flight f.controller
    then update f.key (λ s. record s { loading = false }) cleared
    else p

-- The lines as a chunk for `prepend`.
unfoldable pub chunk_of : List Text → Text
chunk_of lines = join newline lines ++ newline ∷ []

unfoldable pub at_start : Fetch → Paging → Paging
at_start f p = update f.key (λ s. record s { can_load = false }) p

-- A page with lines in it.
unfoldable pub arrive_lines : Fetch → List Text → Paging → Paging
arrive_lines f lines p =
    let (buffer, added) = prepend p.buffer (chunk_of lines) in
    let p' = record p { buffer = buffer } in if added == 0 then at_start f p' else p'

-- What follows the `await`: `lines.length === 0` is tested first.
unfoldable pub arrive : Fetch → List Text → Paging → Paging
arrive f lines p =
    if f.aborted
    then finish f p
    else if length lines == 0
    then finish f (at_start f p)
    else finish f (arrive_lines f lines p)

-- The `catch`.
unfoldable pub fail : Fetch → Thrown → Paging → Paging
fail f e p =
    if f.aborted
    then finish f p
    else finish f
        (update f.key (λ s. record s { can_load = false; error = some (message_for e) }) p)

-- How `fetchEarlier` can settle.
pub data Fetched : Type 0 where
  resolved : List Text → Fetched
  rejected : Thrown → Fetched

unfoldable pub settle : Fetch → Fetched → Paging → Paging
settle f (resolved lines) p = arrive f lines p
settle f (rejected e) p = fail f e p

-- The call at `i` settles, and is over.
unfoldable pub take_at : ℕ → List Fetch → Option Fetch × List Fetch
take_at i [] = (none, [])
take_at zero (f ∷ fs) = (some f, fs)
take_at (suc i) (f ∷ fs) = let (found, rest) = take_at i fs in (found, f ∷ rest)

unfoldable pub settle_at : ℕ → Fetched → Paging → Paging
settle_at i s p =
    let (found, rest) = take_at i p.fetches in
    elim found [ none ↦ p | some f ↦ settle f s (record p { fetches = rest }) ]

-- `inFlight.current?.abort()`.
unfoldable pub abort_one : Option ℕ → List Fetch → List Fetch
abort_one c [] = []
abort_one c (f ∷ fs) =
    let rest = abort_one c fs in
    if is_controller c f.controller then record f { aborted = true } ∷ rest else f ∷ rest

-- What happens to a hook.
pub data Event : Type 0 where
  renders : Text → Event
  loads : Event
  settles : ℕ → Fetched → Event
  unmounts : Event

unfoldable pub step : Event → Paging → Paging
step (renders key) p = record p { reset_key = key }
step loads p = load_earlier p
step (settles i s) p = settle_at i s p
step unmounts p = record p { fetches = abort_one p.in_flight p.fetches }

unfoldable pub steps : List Event → Paging → Paging
steps [] p = p
steps (e ∷ es) p = steps es (step e p)

unfoldable pub mount : Text → LogBuffer → Paging
mount key b = record {
  reset_key = key;
  state = fresh_state key;
  in_flight = none;
  fetches = [];
  made = 0;
  buffer = b;
}

-- What the hook returns: `loading`, `canLoad` and `error`.
unfoldable pub shown : Paging → PagingState
shown p = state_for p.reset_key p.state

unfoldable pub can_load_now : Bool → Paging → Bool
can_load_now ready p = (shown p).can_load && ready
