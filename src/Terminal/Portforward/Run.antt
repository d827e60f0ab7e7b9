-- ===== src/Terminal/Portforward/Run.antt =====
-- Whole runs of the channel: the byte stream that comes out, and the moment when it opens.
use openshift_console.Prelude.{
  ℕ, ◌-◌, ◌≡◌, true, false, not, ◌&&◌, List, [], ◌∷◌, ◌++◌, ◌==◌, leb, if◌then◌else◌, length, drop,
  arith, refl, sym, ap, ◌∙◌, inl, inr, ==_iff, leb→le, leb-false→lt, drop_all, Bool-cases,
  Option-cases,
}
use openshift_console.Prelude.Text.{Text}
use openshift_console.Terminal.Portforward.{
  Bytes, EventData, Socket, Channel, Handlers, to_uint8_array, on_frame, on_socket_message,
  strip_header, deliver, receive_all, new_channel, ready_state, open_state, connecting_state,
}
use openshift_console.Terminal.Portforward.Step.{
  bytes_of, Orderly, data_payload, data_of, IsValid, Listening, Progress, Progress-nil,
  Progress-append, bytes_of-deliver, Orderly-deliver, bytes_of-deliver_other, Orderly-deliver_other,
  strip_header-open, strip_header_other, strip_header-last, strip_header-more,
}

-- The bytes that came in on the data channel.
abbrev pub data_bytes : List EventData → Bytes
data_bytes [] = []
data_bytes (d ∷ ds) = data_of d ++ data_bytes ds

module _ (decode : Bytes → Text) (ch : Channel) (v : IsValid ch) where
  frame_data :
      (payload : Bytes)
      → Listening ch.handlers
      → Progress ch payload
          (on_frame decode ch (0 ∷ payload)).0
          (on_frame decode ch (0 ∷ payload)).1
  unfolding on_frame
  frame_data payload (opens, hears) = elim (Bool-cases (ch.data_pending == 0)) [
    | inl done ↦
        let z : ch.data_pending ≡ 0 = (==_iff ch.data_pending 0).0 done in
        let o : ch.opened ≡ true = v ∙ done in
        rw (strip_header-open ch payload z, on_frame)
          record {
            same_socket = refl;
            same_handlers = refl;
            counted = omega arith;
            valid = v;
            bytes =
                bytes_of-deliver decode ch.handlers payload (opens, hears)
                ∙ sym (ap (λ n. drop n payload) z);
            ordered = rw o (Orderly-deliver decode ch.handlers payload (opens, hears));
          }
    | inr waits ↦ elim (Bool-cases (leb ch.data_pending (length payload))) [
      | inl enough ↦
          rw (strip_header-last ch payload waits enough opens, on_frame)
            record {
              same_socket = refl;
              same_handlers = refl;
              counted = omega (arith, leb→le _ _ enough);
              valid = ground arith;
              bytes =
                  bytes_of-deliver decode ch.handlers (drop ch.data_pending payload) (opens, hears);
              ordered = (
                v ∙ waits,
                Orderly-deliver decode ch.handlers (drop ch.data_pending payload) (opens, hears),
              );
            }
      | inr short ↦
          let n = ch.data_pending - length payload in
          let left : (n == 0) ≡ false = ground arith in
          rw (strip_header-more ch payload waits short, on_frame)
            record {
              same_socket = refl;
              same_handlers = refl;
              counted = refl;
              valid = v ∙ waits ∙ sym left;
              bytes =
                  unfold deliver in
                  sym (drop_all ch.data_pending payload (omega (arith, leb-false→lt _ _ short)));
              ordered = unfold deliver in refl;
            }
    ]
  ]

  frame_other :
      (c : ℕ) (payload : Bytes)
      → (c == 0) ≡ false
      → Progress ch [] (on_frame decode ch (c ∷ payload)).0 (on_frame decode ch (c ∷ payload)).1
  unfolding on_frame
  frame_other c payload e =
      let (next, (rest, events)) = strip_header ch c payload in
      let a = strip_header_other ch c payload e in
      record {
        same_socket = a.aside_socket;
        same_handlers = a.aside_handlers;
        counted = omega (arith, a.aside_pending);
        valid = a.aside_opened ∙ v ∙ ap (λ n. n == 0) (sym a.aside_pending);
        bytes = rw (a.aside_events) (
            bytes_of-deliver_other decode ch.handlers c rest e
            ∙ sym (drop_all ch.data_pending [] (omega arith)));
        ordered =
            rw (a.aside_events, a.aside_opened)
              (Orderly-deliver_other decode ch.handlers c ch.opened rest e);
      }

  frame-Progress :
      (frame : Bytes)
      → Listening ch.handlers
      → Progress ch (data_payload frame) (on_frame decode ch frame).0 (on_frame decode ch frame).1
  frame-Progress [] h = unfold on_frame in Progress-nil ch v
  frame-Progress (c ∷ payload) h = elim (Bool-cases (c == 0)) [
    | inl e ↦ let z : c ≡ 0 = (==_iff c 0).0 e in rw z (frame_data payload h)
    | inr e ↦ rw e (frame_other c payload e)
  ]

  message-Progress :
      (d : EventData)
      → Listening ch.handlers
      → Progress ch (data_of d) (on_socket_message decode ch d).0 (on_socket_message decode ch d).1
  unfolding on_socket_message
  message-Progress d h = elim (Option-cases (to_uint8_array d)) [
    | inl e ↦ rw (e, on_socket_message, data_of) (Progress-nil ch v)
    | inr (frame, e) ↦ rw (e, on_socket_message, data_of) (frame-Progress frame h)
  ]

run-Progress :
    (decode : Bytes → Text) (ch : Channel) (ds : List EventData)
    → IsValid ch
    → Listening ch.handlers
    → Progress ch (data_bytes ds) (receive_all decode ch ds).0 (receive_all decode ch ds).1
unfolding receive_all
run-Progress decode ch [] v h = Progress-nil ch v
run-Progress decode ch (d ∷ ds) v h =
    let p = message-Progress decode ch v d h in
    let (next, events) = on_socket_message decode ch d in
    Progress-append ch next (receive_all decode next ds).0 (data_of d) (data_bytes ds) events
      (receive_all decode next ds).1 p (run-Progress decode next ds p.valid (rw p.same_handlers h))

pending_done : (n : ℕ) → (2 - n == 0) ≡ leb 2 n
pending_done n = ground arith

new_channel-IsValid : (s : Socket) (hs : Handlers) → IsValid (new_channel s hs)
unfolding new_channel
new_channel-IsValid s hs = refl

module _ (decode : Bytes → Text) (socket : Socket) (hs : Handlers) (ds : List EventData) where
  run :
      Listening hs
      → Progress
          (new_channel socket hs)
          (data_bytes ds)
          (receive_all decode (new_channel socket hs) ds).0
          (receive_all decode (new_channel socket hs) ds).1
  run h =
      run-Progress decode (new_channel socket hs) ds (new_channel-IsValid socket hs)
        (unfold new_channel in h)

  opened_when :
      Listening hs
      → (receive_all decode (new_channel socket hs) ds).0.opened ≡ leb 2 (length (data_bytes ds))
  opened_when h =
      let p = run h in
      p.valid
      ∙ ap (λ n. n == 0) p.counted
      ∙ (unfold new_channel in pending_done (length (data_bytes ds)))

  receive_all-stream :
      Listening hs
      → (bytes_of (receive_all decode (new_channel socket hs) ds).1 ≡ drop 2 (data_bytes ds))
        × Orderly false
            (leb 2 (length (data_bytes ds)))
            (receive_all decode (new_channel socket hs) ds).1
  unfolding new_channel
  receive_all-stream h = let p = run h in (p.bytes, rw (opened_when h) at p.ordered)

  ready_state-receive_all :
      Listening hs
      → ready_state (receive_all decode (new_channel socket hs) ds).0 ≡ (
          if (socket.ready_state == open_state) && not (leb 2 (length (data_bytes ds)))
          then connecting_state
          else socket.ready_state)
  unfolding ready_state
  ready_state-receive_all h = rw (opened_when h, (run h).same_socket) (unfold new_channel in refl)

  -- However the bytes of the data channel are cut into frames, and whatever comes in on other
  -- channels between them, the messages of a new channel that is listened to carry all of them but
  -- the two bytes of the header. The channel opens at most once, before the first message, and has
  -- opened when and only when those two bytes are there; until then an open socket is reported as
  -- connecting, and from then on, and if it is not open, its own state is reported.
  pub receive_all-channel :
      Listening hs
      → (bytes_of (receive_all decode (new_channel socket hs) ds).1 ≡ drop 2 (data_bytes ds))
        × Orderly false
            (leb 2 (length (data_bytes ds)))
            (receive_all decode (new_channel socket hs) ds).1
        × (ready_state (receive_all decode (new_channel socket hs) ds).0 ≡ (
            if (socket.ready_state == open_state) && not (leb 2 (length (data_bytes ds)))
            then connecting_state
            else socket.ready_state))
  receive_all-channel h =
      let (all_bytes, orderly) = receive_all-stream h in
      (all_bytes, orderly, ready_state-receive_all h)
