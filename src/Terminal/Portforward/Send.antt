-- ===== src/Terminal/Portforward/Send.antt =====
-- What the channel sends, read by the rule for frames that are received.
use openshift_console.Prelude.{
  ℕ, suc, ◌≡◌, List, [], ◌∷◌, ◌++◌, length, replicate, arith, refl, ap, ◌∙◌, append-nil,
  append_assoc, drop, take, ◌+◌, drop_all, length-replicate, sym,
}
use openshift_console.Prelude.Arrays.{write_at}
use openshift_console.Terminal.Portforward.{
  Bytes, EventData, array_buffer, view, other, Channel, framed, send, to_uint8_array,
}
use openshift_console.Terminal.Portforward.Step.{data_of}
use openshift_console.Terminal.Portforward.Run.{data_bytes}

framed-eq_cons : (payload : Bytes) → framed payload ≡ 0 ∷ payload
unfolding framed write_at
framed-eq_cons payload =
    let gone : drop (1 + length payload) (replicate (suc (length payload)) 0) ≡ [] =
      drop_all (1 + length payload) (replicate (suc (length payload)) 0)
        (omega (arith, length-replicate {A = ℕ} (suc (length payload)) 0)) in
    ap (λ t. 0 ∷ payload ++ t) gone ∙ ap (λ t. 0 ∷ t) (append-nil payload)

unfoldable pub send_all : Channel → List EventData → Channel
send_all ch [] = ch
send_all ch (d ∷ ds) = send_all (send ch d) ds

-- The frames that were sent, as the messages of the other end.
abbrev pub wire : List Bytes → List EventData
wire [] = []
wire (frame ∷ frames) = wire frames ++ array_buffer frame ∷ []

-- What `send` is given, as bytes: a whole buffer, or the part of one that a view shows.
abbrev pub payload_of : EventData → Bytes
payload_of (array_buffer bytes) = bytes
payload_of (view buffer offset count) = take count (drop offset buffer)
payload_of other = []

abbrev pub payloads : List EventData → Bytes
payloads [] = []
payloads (d ∷ ds) = payload_of d ++ payloads ds

data_bytes-append :
    (ds es : List EventData) → data_bytes (ds ++ es) ≡ data_bytes ds ++ data_bytes es
data_bytes-append [] es = refl
data_bytes-append (d ∷ ds) es =
    ap (λ t. data_of d ++ t) (data_bytes-append ds es)
    ∙ sym (append_assoc (data_of d) (data_bytes ds) (data_bytes es))

data_of-framed : (payload : Bytes) → data_bytes (array_buffer (framed payload) ∷ []) ≡ payload
unfolding to_uint8_array
data_of-framed payload = rw (framed-eq_cons payload) (append-nil payload)

-- A frame with a payload, behind what was sent before.
data_bytes-framed :
    (frames : List Bytes) (payload : Bytes)
    → data_bytes (wire (framed payload ∷ frames)) ≡ data_bytes (wire frames) ++ payload
data_bytes-framed frames payload =
    data_bytes-append (wire frames) (array_buffer (framed payload) ∷ [])
    ∙ ap (λ t. data_bytes (wire frames) ++ t) (data_of-framed payload)

data_bytes-send :
    (ch : Channel) (d : EventData)
    → data_bytes (wire (send ch d).socket.sent) ≡ data_bytes (wire ch.socket.sent) ++ payload_of d
unfolding send to_uint8_array
data_bytes-send ch (array_buffer bytes) = data_bytes-framed ch.socket.sent bytes
data_bytes-send ch (view buffer offset count) =
    data_bytes-framed ch.socket.sent (take count (drop offset buffer))
data_bytes-send ch other = sym (append-nil (data_bytes (wire ch.socket.sent)))

-- What is sent arrives in order: what the frames carry on the data channel grows by the bytes of each
-- buffer given to `send`, and of a view by the bytes from its offset on, as many as its length.
pub data_bytes-send_all :
    (ch : Channel) (ds : List EventData)
    → data_bytes (wire (send_all ch ds).socket.sent)
      ≡ data_bytes (wire ch.socket.sent) ++ payloads ds
unfolding send_all
data_bytes-send_all ch [] = sym (append-nil (data_bytes (wire ch.socket.sent)))
data_bytes-send_all ch (d ∷ ds) =
    data_bytes-send_all (send ch d) ds
    ∙ ap (λ t. t ++ payloads ds) (data_bytes-send ch d)
    ∙ append_assoc (data_bytes (wire ch.socket.sent)) (payload_of d) (payloads ds)
