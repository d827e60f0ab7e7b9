-- ===== src/Filesystem/Transfer/Download.antt =====
-- What a download yields.
use openshift_console.Prelude.{
  suc, ◌+◌, ◌≡◌, true, false, List, [], ◌∷◌, ◌++◌, some, ◌==◌, ==_iff, length, drop, refl, ap, ◌∙◌,
  sym, arith, inl, inr, Bool-cases, Option-cases, append-nil, append_assoc, length-append,
  length-drop, length-replicate, take-append_more, drop-append_more, replicate,
}
use openshift_console.Prelude.Arrays.{write_at}
use openshift_console.Filesystem.Transfer.{
  Bytes, Message, Reading, note_total, take_data, read_messages, fill, concat, new_reading,
  read_file_bytes,
}

abbrev pub joined : List Bytes → Bytes
joined [] = []
joined (chunk ∷ chunks) = chunk ++ joined chunks

joined-append : (xs ys : List Bytes) → joined (xs ++ ys) ≡ joined xs ++ joined ys
joined-append [] ys = refl
joined-append (x ∷ xs) ys =
    ap (λ t. x ++ t) (joined-append xs ys) ∙ sym (append_assoc x (joined xs) (joined ys))

write_at-append :
    (before rest chunk : Bytes)
    → write_at (before ++ rest) chunk (length before)
      ≡ (before ++ chunk) ++ drop (length chunk) rest
unfolding write_at
write_at-append before rest chunk =
    rw
      (
        take-append_more before rest (length before) 0 (omega arith),
        drop-append_more before rest (length before + length chunk) (length chunk) refl,
        append-nil before,
      )
      (sym (append_assoc before chunk (drop (length chunk) rest)))

fill-append :
    (before rest : Bytes) (chunks : List Bytes)
    → length rest ≡ length (joined chunks)
    → fill (before ++ rest) (length before) chunks ≡ before ++ joined chunks
unfolding fill
fill-append before [] [] h = refl
fill-append before (x ∷ rest) [] h = absurd (omega arith)
fill-append before rest (chunk ∷ chunks) h =
    ap (λ t. fill t (length before + length chunk) chunks) (write_at-append before rest chunk)
    ∙ ap (λ n. fill ((before ++ chunk) ++ drop (length chunk) rest) n chunks)
        (sym (length-append before chunk))
    ∙ fill-append (before ++ chunk) (drop (length chunk) rest) chunks
        (omega (arith, length-drop (length chunk) rest, length-append chunk (joined chunks)))
    ∙ append_assoc before chunk (joined chunks)

concat-joined : (chunks : List Bytes) → concat chunks (length (joined chunks)) ≡ joined chunks
unfolding concat
concat-joined chunks =
    fill-append [] (replicate (length (joined chunks)) 0) chunks
      (length-replicate (length (joined chunks)) 0)

abbrev pub contents_of : List Message → Bytes
contents_of [] = []
contents_of (m ∷ ms) = m.contents ++ contents_of ms

-- What was read so far, and how much of it.
abbrev Holds : Reading → Bytes → Type 0
Holds r bytes = (joined r.chunks ≡ bytes) × (r.received ≡ length bytes)

note_total-Holds :
    (r : Reading) (m : Message) (bytes : Bytes) → Holds r bytes → Holds (note_total r m) bytes
unfolding note_total
note_total-Holds r m bytes h = elim (Option-cases r.total) [
  | inr (t, e) ↦ rw e h
  | inl e ↦ elim (Bool-cases (m.total_size == 0)) [ inl z ↦ rw (e, z) h | inr z ↦ rw (e, z) h ]
]

empty : (xs : Bytes) → (length xs == 0) ≡ true → xs ≡ []
empty [] h = refl
empty (x ∷ xs) h = absurd (omega (arith, (==_iff (suc (length xs)) 0).0 h))

take_data-Holds :
    (r : Reading) (m : Message) (bytes : Bytes)
    → Holds r bytes
    → Holds (take_data r m) (bytes ++ m.contents)
unfolding take_data
take_data-Holds r m bytes (text, size) = elim (Bool-cases (length m.contents == 0)) [
  | inl z ↦
      let e : bytes ++ m.contents ≡ bytes =
        ap (λ t. bytes ++ t) (empty m.contents z) ∙ append-nil bytes in
      rw (z, e) (text, size)
  | inr some_data ↦ rw (some_data) (
    joined-append r.chunks (m.contents ∷ [])
        ∙ ap (λ t. joined r.chunks ++ t) (append-nil m.contents)
        ∙ ap (λ t. t ++ m.contents) text,
    omega (arith, length-append bytes m.contents),
  )
]

read_messages-Holds :
    (r : Reading) (ms : List Message) (bytes : Bytes)
    → Holds r bytes
    → Holds (read_messages r ms) (bytes ++ contents_of ms)
unfolding read_messages
read_messages-Holds r [] bytes h = rw (append-nil bytes) h
read_messages-Holds r (m ∷ ms) bytes h = rw (append_assoc bytes m.contents (contents_of ms)) at (
    read_messages-Holds (take_data (note_total r m) m) ms (bytes ++ m.contents)
      (take_data-Holds (note_total r m) m bytes (note_total-Holds r m bytes h)))

-- A file whose stream ends in order is read whole: the array holds the bytes of all messages, in
-- order and without a gap, however they are cut.
pub read_file_bytes-contents :
    (ms : List Message) → read_file_bytes ms false ≡ some (contents_of ms)
unfolding read_file_bytes
read_file_bytes-contents ms =
    let (text, size) = read_messages-Holds new_reading ms [] (refl, refl) in
    ap some (
      ap (concat (read_messages new_reading ms).chunks) (size ∙ ap length (sym text))
      ∙ concat-joined (read_messages new_reading ms).chunks
      ∙ text)
