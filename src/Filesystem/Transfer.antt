-- ===== src/Filesystem/Transfer.antt =====
-- plugins/filesystem/src/pod/transfer.ts: reading and uploading files.
pub mod Upload
pub mod Download
mod Tests
use openshift_console.Prelude.{
  ℕ, zero, suc, ◌+◌, ◌-◌, Bool, true, false, List, [], ◌∷◌, ◌++◌, Option, none, some, ltb, leb,
  ◌==◌, ◌||◌, if◌then◌else◌, length, take, drop, replicate,
}
use openshift_console.Prelude.Text.{Text, codes, same}
use openshift_console.Prelude.Arrays.{write_at, subarray}
use openshift_console.Filesystem.Paths.{join_path, base_name}

abbrev pub Bytes : Type 0
Bytes = List ℕ

-- A call of the `upload` method, without the target and the mode, which are the same in all.
pub record UploadCall : Type 0 where
  path : Text
  offset : ℕ
  bytes : Bytes
  is_last : Bool

-- What an upload does: the calls, and the calls of `onProgress`.
pub data UploadEvent : Type 0 where
  sent : UploadCall → UploadEvent
  progress : ℕ → ℕ → UploadEvent

-- How an upload ends: at its end, by a call that is refused, or not in the rounds that it was given.
pub data Outcome : Type 0 where
  finished : Outcome
  refused : Outcome
  unfinished : Outcome

abbrev pub smaller : ℕ → ℕ → ℕ
smaller a b = if leb a b then a else b

unfoldable pub chunk_at : Text → Bytes → ℕ → ℕ → UploadCall
chunk_at path file chunk_bytes offset = record {
  path = path;
  offset = offset;
  bytes = subarray file offset (smaller (offset + chunk_bytes) (length file));
  is_last = leb (length file) (offset + chunk_bytes);
}

-- The loop, with whether the other side takes a call, the rounds left and the offset.
module _ (takes : UploadCall → Bool) (path : Text) (file : Bytes) (chunk_bytes : ℕ) where
  unfoldable pub upload_loop : ℕ → ℕ → List UploadEvent × Outcome
  upload_loop zero offset = ([], unfinished)
  upload_loop (suc rounds) offset =
      let call = chunk_at path file chunk_bytes offset in
      let (later, outcome) = upload_loop rounds (offset + chunk_bytes) in
      let reached = progress (smaller (offset + length call.bytes) (length file)) (length file) in
      if (offset == 0) || ltb offset (length file)
      then if takes call
        then if call.is_last
          then (sent call ∷ reached ∷ [], finished)
          else (sent call ∷ reached ∷ later, outcome)
        else (sent call ∷ [], refused)
      else ([], finished)

-- `Math.max(1, options.chunkBytes)`.
unfoldable pub chunk_size : ℕ → ℕ
chunk_size n = if n == 0 then 1 else n

unfoldable pub upload_file :
    (UploadCall → Bool) → Text → Text → Bytes → ℕ → List UploadEvent × Outcome
upload_file takes directory name file chunk_bytes =
    upload_loop takes (join_path directory name) file (chunk_size chunk_bytes) (suc (length file)) 0

-- A message of a file that is read. A total of 0 is none.
pub record Message : Type 0 where
  total_size : ℕ
  contents : Bytes

pub record Reading : Type 0 where
  chunks : List Bytes
  received : ℕ
  total : Option ℕ
  reports : List (ℕ × Option ℕ)

unfoldable pub note_total : Reading → Message → Reading
note_total r m = elim r.total [
  | none ↦ if m.total_size == 0 then r else record r { total = some m.total_size }
  | some t ↦ r
]

unfoldable pub take_data : Reading → Message → Reading
take_data r m = if length m.contents == 0 then r else record r {
  chunks = r.chunks ++ m.contents ∷ [];
  received = r.received + length m.contents;
  reports = r.reports ++ (r.received + length m.contents, r.total) ∷ [];
}

unfoldable pub read_messages : Reading → List Message → Reading
read_messages r [] = r
read_messages r (m ∷ ms) = read_messages (take_data (note_total r m) m) ms

-- The loop of `concat`, with the array and the offset.
unfoldable pub fill : Bytes → ℕ → List Bytes → Bytes
fill out offset [] = out
fill out offset (chunk ∷ chunks) = fill (write_at out chunk offset) (offset + length chunk) chunks

unfoldable pub concat : List Bytes → ℕ → Bytes
concat chunks total = fill (replicate total 0) 0 chunks

abbrev pub new_reading : Reading
new_reading = record { chunks = []; received = 0; total = none; reports = [] }

-- `none` where the stream breaks off.
unfoldable pub read_file_bytes : List Message → Bool → Option Bytes
read_file_bytes messages breaks =
    let r = read_messages new_reading messages in
    if breaks then none else some (concat r.chunks r.received)
