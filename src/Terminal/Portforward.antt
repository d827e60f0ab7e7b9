-- ===== src/Terminal/Portforward.antt =====
-- plugins/terminal/src/pod/portforward.ts: the byte channel over a port-forward websocket.
pub mod Step
pub mod Run
pub mod Send
mod Tests
use openshift_console.Prelude.{
  ℕ, zero, suc, ◌+◌, ◌-◌, Bool, true, false, ◌&&◌, not, List, [], ◌∷◌, ◌++◌, Option, none, some,
  leb, ltb, ◌==◌, if◌then◌else◌, length, take, drop, set, replicate,
}
use openshift_console.Prelude.Text.{Text}
use openshift_console.Prelude.Arrays.{write_at}

abbrev pub Bytes : Type 0
Bytes = List ℕ

abbrev pub data_channel : ℕ
data_channel = 0

abbrev pub error_channel : ℕ
error_channel = 1

abbrev pub port_header_bytes : ℕ
port_header_bytes = 2

abbrev pub connecting_state : ℕ
connecting_state = 0

abbrev pub open_state : ℕ
open_state = 1

-- What a socket event carries, and what `send` is given: a whole buffer, a view of one from an
-- offset on, or anything else.
pub data EventData : Type 0 where
  array_buffer : Bytes → EventData
  view : Bytes → ℕ → ℕ → EventData
  other : EventData

-- The websocket: its state, and the frames it was given to send, the last one first.
pub record Socket : Type 0 where
  ready_state : ℕ
  sent : List Bytes

-- Which of the callbacks are set.
pub record Handlers : Type 0 where
  on_open : Bool
  on_message : Bool
  on_error : Bool
  on_stream_error : Bool

pub record Channel : Type 0 where
  socket : Socket
  handlers : Handlers
  data_pending : ℕ
  error_pending : ℕ
  opened : Bool

-- The calls of the callbacks.
pub data Event : Type 0 where
  open_event : Event
  message_event : Bytes → Event
  error_event : Text → Event
  stream_error_event : Text → Event

unfoldable pub new_channel : Socket → Handlers → Channel
new_channel socket handlers = record {
  socket = socket;
  handlers = handlers;
  data_pending = port_header_bytes;
  error_pending = port_header_bytes;
  opened = false;
}

unfoldable pub ready_state : Channel → ℕ
ready_state ch =
    if (ch.socket.ready_state == open_state) && not ch.opened
    then connecting_state
    else ch.socket.ready_state

unfoldable pub to_uint8_array : EventData → Option Bytes
to_uint8_array (array_buffer bytes) = some bytes
to_uint8_array (view bytes offset n) = some (take n (drop offset bytes))
to_uint8_array other = none

-- The frame around a payload: its length and one byte more, zeros at first.
unfoldable pub framed : Bytes → Bytes
framed payload = write_at (set (replicate (suc (length payload)) 0) 0 data_channel) payload 1

-- `send`, which takes buffers and views only.
unfoldable pub send : Channel → EventData → Channel
send ch d = elim (to_uint8_array d) [
  | none ↦ ch
  | some payload ↦ record ch {
    socket = record ch.socket { sent = framed payload ∷ ch.socket.sent };
  }
]

-- `callback?.(...)`.
unfoldable pub emit : Bool → Event → List Event
emit is_set e = if is_set then e ∷ [] else []

-- The map of pending header bytes, whose keys are the two channels.
unfoldable pub pending_of : Channel → ℕ → Option ℕ
pending_of ch channel =
    if channel == data_channel
    then some ch.data_pending
    else if channel == error_channel
    then some ch.error_pending
    else none

unfoldable pub set_pending : Channel → ℕ → ℕ → Channel
set_pending ch channel n =
    if channel == data_channel
    then record ch { data_pending = n }
    else if channel == error_channel
    then record ch { error_pending = n }
    else ch

abbrev pub smaller : ℕ → ℕ → ℕ
smaller a b = if leb a b then a else b

-- The payload without the header bytes that were pending, and the `open` event with the last of
-- them.
unfoldable pub consume_header : Channel → ℕ → ℕ → Bytes → Channel × (Bytes × List Event)
consume_header ch channel pending payload =
    let consumed = smaller pending (length payload) in
    let counted = set_pending ch channel (pending - consumed) in
    let rest = drop consumed payload in
    if (channel == data_channel) && ((pending - consumed) == 0)
    then (record counted { opened = true }, (rest, emit ch.handlers.on_open open_event))
    else (counted, (rest, []))

unfoldable pub strip_header : Channel → ℕ → Bytes → Channel × (Bytes × List Event)
strip_header ch channel payload = elim (pending_of ch channel) [
  | none ↦ (ch, (payload, []))
  | some n ↦ if n == 0 then (ch, (payload, [])) else consume_header ch channel n payload
]

module _ (decode : Bytes → Text) where
  unfoldable pub deliver : Handlers → ℕ → Bytes → List Event
  deliver hs channel payload =
      if length payload == 0
      then []
      else if channel == error_channel
      then emit hs.on_stream_error (stream_error_event (decode payload))
        ++ emit hs.on_error (error_event (decode payload))
      else if channel == data_channel
      then emit hs.on_message (message_event payload)
      else []

  unfoldable pub on_frame : Channel → Bytes → Channel × List Event
  on_frame ch [] = (ch, [])
  on_frame ch (channel ∷ payload) =
      let (next, (rest, events)) = strip_header ch channel payload in
      (next, events ++ deliver ch.handlers channel rest)

  unfoldable pub on_socket_message : Channel → EventData → Channel × List Event
  on_socket_message ch d = elim (to_uint8_array d) [
    | none ↦ (ch, [])
    | some frame ↦ on_frame ch frame
  ]

  -- The events of a sequence of messages.
  unfoldable pub receive_all : Channel → List EventData → Channel × List Event
  receive_all ch [] = (ch, [])
  receive_all ch (d ∷ ds) =
      let (next, events) = on_socket_message ch d in
      let (last, later) = receive_all next ds in (last, events ++ later)
