-- ===== src/Terminal/Portforward/Tests.antt =====
-- Concrete runs of the channel.
use openshift_console.Prelude.{
  ◌≡◌, true, false, ◌&&◌, not, List, [], ◌∷◌, ◌++◌, drop, refl, ◌==◌, leb, length, if◌then◌else◌,
}
use openshift_console.Prelude.Text.{Text}
use openshift_console.Terminal.Portforward.{
  Bytes, EventData, array_buffer, view, other, Socket, Handlers, new_channel, receive_all,
  open_state, connecting_state, ready_state, to_uint8_array,
}
use openshift_console.Terminal.Portforward.Step.{bytes_of, Orderly}
use openshift_console.Terminal.Portforward.Run.{data_bytes, receive_all-channel}
use openshift_console.Terminal.Portforward.Send.{send_all, wire, payloads, data_bytes-send_all}

abbrev socket : Socket
socket = record { ready_state = 1; sent = [] }

abbrev handlers : Handlers
handlers = record { on_open = true; on_message = true; on_error = true; on_stream_error = true }

-- The header in two pieces, with the first byte of the stream, and the error channel between.
abbrev frames : List EventData
frames =
    array_buffer (0 ∷ 12 ∷ [])
    ∷ array_buffer (1 ∷ 12 ∷ 23 ∷ 7 ∷ [])
    ∷ other
    ∷ view (9 ∷ 0 ∷ 23 ∷ 5 ∷ 9 ∷ []) 1 3
    ∷ array_buffer (0 ∷ 6 ∷ [])
    ∷ []

abbrev decoded : Bytes → Text
decoded bytes = bytes

receive_all-channel_example :
    (bytes_of (receive_all decoded (new_channel socket handlers) frames).1
      ≡ drop 2 (data_bytes frames))
    × Orderly false
        (leb 2 (length (data_bytes frames)))
        (receive_all decoded (new_channel socket handlers) frames).1
    × (ready_state (receive_all decoded (new_channel socket handlers) frames).0 ≡ (
        if (socket.ready_state == open_state) && not (leb 2 (length (data_bytes frames)))
        then connecting_state
        else socket.ready_state))
receive_all-channel_example = receive_all-channel decoded socket handlers frames (refl, refl)

frames_bytes : drop 2 (data_bytes frames) ≡ 5 ∷ 6 ∷ []
unfolding to_uint8_array
frames_bytes = refl

abbrev buffers : List EventData
buffers = array_buffer (1 ∷ 2 ∷ []) ∷ view (7 ∷ 3 ∷ 4 ∷ []) 1 2 ∷ []

data_bytes-send_all_example :
    data_bytes (wire (send_all (new_channel socket handlers) buffers).socket.sent)
    ≡ data_bytes (wire (new_channel socket handlers).socket.sent) ++ payloads buffers
data_bytes-send_all_example = data_bytes-send_all (new_channel socket handlers) buffers
