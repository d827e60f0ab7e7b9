-- ===== src/Terminal/Portforward/Step.antt =====
-- What one message does to the channel: the bytes it hands on, the header it consumes, and when the
-- channel opens.
use openshift_console.Prelude.{
  ℕ, zero, suc, ◌-◌, ◌≡◌, Bool, true, false, List, [], ◌∷◌, ◌++◌, none, some, ◌==◌, leb,
  if◌then◌else◌, length, drop, arith, refl, sym, ap, ◌∙◌, drop_all, append-nil, append_assoc,
  length-append,
}
use openshift_console.Prelude.Text.{Text}
use openshift_console.Terminal.Portforward.{
  Bytes, EventData, Channel, Handlers, Event, open_event, message_event, error_event,
  stream_error_event, to_uint8_array, strip_header, consume_header, pending_of, set_pending,
  deliver, emit,
}

-- The bytes that the messages carry.
abbrev pub bytes_of : List Event → Bytes
bytes_of [] = []
bytes_of (message_event b ∷ es) = b ++ bytes_of es
bytes_of (open_event ∷ es) = bytes_of es
bytes_of (error_event t ∷ es) = bytes_of es
bytes_of (stream_error_event t ∷ es) = bytes_of es

-- The channel opens at most once between two states, and no message comes before.
abbrev pub Orderly : Bool → Bool → List Event → Type 0
Orderly from to [] = from ≡ to
Orderly from to (open_event ∷ es) = (from ≡ false) × Orderly true to es
Orderly from to (message_event b ∷ es) = (from ≡ true) × Orderly from to es
Orderly from to (error_event t ∷ es) = Orderly from to es
Orderly from to (stream_error_event t ∷ es) = Orderly from to es

-- The bytes of a frame on the data channel.
abbrev pub data_payload : Bytes → Bytes
data_payload [] = []
data_payload (channel ∷ payload) = if channel == 0 then payload else []

abbrev pub data_of : EventData → Bytes
data_of d = elim (to_uint8_array d) [ none ↦ [] | some frame ↦ data_payload frame ]

abbrev pub IsValid : Channel → Type 0
IsValid ch = ch.opened ≡ (ch.data_pending == 0)

abbrev pub Listening : Handlers → Type 0
Listening hs = (hs.on_open ≡ true) × (hs.on_message ≡ true)

-- The channel after some bytes on the data channel, with the events on the way.
pub record Progress (ch : Channel) (received : Bytes) (next : Channel) (events : List Event)
    : Type 0 where
  pub same_socket : next.socket ≡ ch.socket
  pub same_handlers : next.handlers ≡ ch.handlers
  pub counted : next.data_pending ≡ ch.data_pending - length received
  pub valid : IsValid next
  pub bytes : bytes_of events ≡ drop ch.data_pending received
  pub ordered : Orderly ch.opened next.opened events

bytes_of-append : (es fs : List Event) → bytes_of (es ++ fs) ≡ bytes_of es ++ bytes_of fs
bytes_of-append [] fs = refl
bytes_of-append (message_event b ∷ es) fs =
    ap (λ t. b ++ t) (bytes_of-append es fs) ∙ sym (append_assoc b (bytes_of es) (bytes_of fs))
bytes_of-append (open_event ∷ es) fs = bytes_of-append es fs
bytes_of-append (error_event t ∷ es) fs = bytes_of-append es fs
bytes_of-append (stream_error_event t ∷ es) fs = bytes_of-append es fs

Orderly-append :
    (from mid to : Bool) (es fs : List Event)
    → Orderly from mid es
    → Orderly mid to fs
    → Orderly from to (es ++ fs)
Orderly-append from mid to [] fs h k = rw (h) k
Orderly-append from mid to (message_event b ∷ es) fs (o, h) k =
    (o, Orderly-append from mid to es fs h k)
Orderly-append from mid to (open_event ∷ es) fs (o, h) k = (o, Orderly-append true mid to es fs h k)
Orderly-append from mid to (error_event t ∷ es) fs h k = Orderly-append from mid to es fs h k
Orderly-append from mid to (stream_error_event t ∷ es) fs h k = Orderly-append from mid to es fs h k

drop-more : (n : ℕ) (xs ys : Bytes) → drop n (xs ++ ys) ≡ drop n xs ++ drop (n - length xs) ys
drop-more zero [] ys = let z : 0 - 0 ≡ 0 = omega arith in ap (λ n. drop n ys) (sym z)
drop-more zero (x ∷ xs) ys =
    let z : 0 - suc (length xs) ≡ 0 = omega arith in ap (λ n. x ∷ xs ++ drop n ys) (sym z)
drop-more (suc n) [] ys = let z : suc n - 0 ≡ suc n = omega arith in ap (λ k. drop k ys) (sym z)
drop-more (suc n) (x ∷ xs) ys =
    let z : suc n - suc (length xs) ≡ n - length xs = omega arith in
    drop-more n xs ys ∙ ap (λ k. drop n xs ++ drop k ys) (sym z)

pub Progress-nil : (ch : Channel) → IsValid ch → Progress ch [] ch []
Progress-nil ch v = record {
  same_socket = refl;
  same_handlers = refl;
  counted = omega arith;
  valid = v;
  bytes = sym (drop_all ch.data_pending [] (omega arith));
  ordered = refl;
}

pub Progress-append :
    (ch mid next : Channel) (xs ys : Bytes) (es fs : List Event)
    → Progress ch xs mid es
    → Progress mid ys next fs
    → Progress ch (xs ++ ys) next (es ++ fs)
Progress-append ch mid next xs ys es fs p q = record {
  same_socket = q.same_socket ∙ p.same_socket;
  same_handlers = q.same_handlers ∙ p.same_handlers;
  counted = omega (arith, p.counted, q.counted, length-append xs ys);
  valid = q.valid;
  bytes =
      bytes_of-append es fs
      ∙ rw (p.bytes, q.bytes, drop-more ch.data_pending xs ys, p.counted) refl;
  ordered = Orderly-append ch.opened mid.opened next.opened es fs p.ordered q.ordered;
}

suc_nonzero : (n : ℕ) → (suc n == 0) ≡ false
suc_nonzero n = ground arith

module _ (decode : Bytes → Text) (hs : Handlers) where
  pub bytes_of-deliver : (xs : Bytes) → Listening hs → bytes_of (deliver decode hs 0 xs) ≡ xs
  unfolding deliver emit
  bytes_of-deliver [] h = refl
  bytes_of-deliver (x ∷ xs) (_, hears) = rw (suc_nonzero (length xs), hears) (append-nil (x ∷ xs))

  pub Orderly-deliver : (xs : Bytes) → Listening hs → Orderly true true (deliver decode hs 0 xs)
  unfolding deliver emit
  Orderly-deliver [] h = refl
  Orderly-deliver (x ∷ xs) (_, hears) = rw (suc_nonzero (length xs), hears) (refl, refl)

  pub bytes_of-deliver_other :
      (c : ℕ) (xs : Bytes) → (c == 0) ≡ false → bytes_of (deliver decode hs c xs) ≡ []
  unfolding deliver emit
  bytes_of-deliver_other c xs e = ground arith

  pub Orderly-deliver_other :
      (c : ℕ) (b : Bool) (xs : Bytes) → (c == 0) ≡ false → Orderly b b (deliver decode hs c xs)
  unfolding deliver emit
  Orderly-deliver_other c b xs e = ground arith

module _ (ch : Channel) (payload : Bytes) where
  pub strip_header-open : (ch.data_pending ≡ 0) → strip_header ch 0 payload ≡ (ch, (payload, []))
  unfolding strip_header pending_of
  strip_header-open e = rw (e) refl

  pub strip_header-last :
      ((ch.data_pending == 0) ≡ false)
      → leb ch.data_pending (length payload) ≡ true
      → ch.handlers.on_open ≡ true
      → strip_header ch 0 payload ≡ (
        record ch { data_pending = 0; opened = true },
        (drop ch.data_pending payload, open_event ∷ []),
      )
  unfolding strip_header consume_header pending_of set_pending emit
  strip_header-last e h o =
      let z : ch.data_pending - ch.data_pending ≡ 0 = omega arith in rw (e, h, o, z) refl

  pub strip_header-more :
      ((ch.data_pending == 0) ≡ false)
      → leb ch.data_pending (length payload) ≡ false
      → strip_header ch 0 payload
        ≡ (record ch { data_pending = ch.data_pending - length payload }, ([], []))
  unfolding strip_header consume_header pending_of set_pending
  strip_header-more e h =
      let (z, d) : (ch.data_pending - length payload == 0 ≡ false)
          × (drop (length payload) payload ≡ []) =
        (ground arith, drop_all (length payload) payload (omega arith)) in
      rw (e, h, z, d) refl

-- The header of another channel than the data channel.
pub record Aside (ch next : Channel) (events : List Event) : Type 0 where
  pub aside_socket : next.socket ≡ ch.socket
  pub aside_handlers : next.handlers ≡ ch.handlers
  pub aside_pending : next.data_pending ≡ ch.data_pending
  pub aside_opened : next.opened ≡ ch.opened
  pub aside_events : events ≡ []

pub strip_header_other :
    (ch : Channel) (c : ℕ) (payload : Bytes)
    → (c == 0) ≡ false
    → Aside ch (strip_header ch c payload).0 (strip_header ch c payload).1.1
unfolding strip_header consume_header pending_of set_pending
strip_header_other ch c payload e = record {
  aside_socket = ground arith;
  aside_handlers = ground arith;
  aside_pending = ground arith;
  aside_opened = ground arith;
  aside_events = ground arith;
}
