-- ===== src/Filesystem/Transfer/Upload.antt =====
-- What an upload sends.
use openshift_console.Prelude.{
  All, ℕ, zero, suc, ◌+◌, ◌-◌, ◌≡◌, ◌≤◌, ◌<◌, Bool, true, false, List, [], ◌∷◌, ◌++◌, ltb, leb,
  ◌==◌, ◌||◌, length, take, drop, refl, ap, ◌∙◌, sym, arith, ◌⊎◌, inl, inr, Bool-cases, leb→le,
  leb-false→lt, take-append-drop, drop-drop, length-drop, length-take, take_all,
}
use openshift_console.Prelude.Text.{Text}
use openshift_console.Filesystem.Paths.{join_path}
use openshift_console.Filesystem.Transfer.{
  Bytes, UploadCall, UploadEvent, sent, progress, Outcome, finished, refused, chunk_at, upload_loop,
  chunk_size, upload_file, smaller,
}
use openshift_console.Prelude.Arrays.{subarray}

abbrev pub calls_of : List UploadEvent → List UploadCall
calls_of [] = []
calls_of (sent call ∷ es) = call ∷ calls_of es
calls_of (progress n total ∷ es) = calls_of es

-- The calls carry the bytes from the offset on, each where the one before it ended, full chunks
-- but the last one, which alone is marked as the last.
abbrev pub Carries : Text → ℕ → ℕ → Bytes → List UploadCall → Type 0
Carries path chunk offset rest [] = ⊥
Carries path chunk offset rest (call ∷ []) =
    (call.path ≡ path)
    × (call.offset ≡ offset)
    × (call.bytes ≡ rest)
    × (call.is_last ≡ true)
    × (length rest ≤ chunk)
Carries path chunk offset rest (call ∷ next ∷ calls) =
    (call.path ≡ path)
    × (call.offset ≡ offset)
    × (call.is_last ≡ false)
    × (length call.bytes ≡ chunk)
    × ((behind : Bytes) × (rest ≡ call.bytes ++ behind)
        × Carries path chunk (offset + chunk) behind (next ∷ calls))

Carries-cons :
    (path : Text) (chunk offset : ℕ) (rest behind : Bytes) (call : UploadCall)
    (calls : List UploadCall)
    → (call.path ≡ path)
      × (call.offset ≡ offset)
      × (call.is_last ≡ false)
      × (length call.bytes ≡ chunk)
    → rest ≡ call.bytes ++ behind
    → Carries path chunk (offset + chunk) behind calls
    → Carries path chunk offset rest (call ∷ calls)
Carries-cons path chunk offset rest behind call [] h e c = absurd c
Carries-cons path chunk offset rest behind call (next ∷ calls) (p, o, l, n) e c =
    (p, o, l, n, (behind, e, c))

module _ (file : Bytes) (chunk offset : ℕ) where
  bytes_last :
      leb (length file) (offset + chunk) ≡ true
      → offset ≤ length file
      → subarray file offset (smaller (offset + chunk) (length file)) ≡ drop offset file
  bytes_last h k =
      let e : smaller (offset + chunk) (length file) ≡ length file = ground arith in
      ap (λ n. take (n - offset) (drop offset file)) e
      ∙ take_all (length file - offset) (drop offset file) (omega (arith, length-drop offset file))

  bytes_more :
      leb (length file) (offset + chunk) ≡ false
      → subarray file offset (smaller (offset + chunk) (length file))
        ≡ take chunk (drop offset file)
  bytes_more h =
      let e : smaller (offset + chunk) (length file) - offset ≡ chunk = ground arith in
      ap (λ n. take n (drop offset file)) e

  rest_more :
      leb (length file) (offset + chunk) ≡ false
      → (length (take chunk (drop offset file)) ≡ chunk)
        × (drop offset file ≡ take chunk (drop offset file) ++ drop (offset + chunk) file)
  rest_more h = (
    length-take chunk (drop offset file)
        (omega (arith, length-drop offset file, leb-false→lt _ _ h)),
    sym (
        ap (λ t. take chunk (drop offset file) ++ t)
          (sym (drop-drop chunk offset (offset + chunk) file (omega arith)))
        ∙ take-append-drop chunk (drop offset file)),
  )

module _ (takes : UploadCall → Bool) (path : Text) (file : Bytes) (chunk : ℕ)
    (some_bytes : 1 ≤ chunk) where
  module _ (rounds offset : ℕ) (runs : ((offset == 0) || ltb offset (length file)) ≡ true) where
    loop-more :
        takes (chunk_at path file chunk offset) ≡ true
        → (chunk_at path file chunk offset).is_last ≡ false
        → upload_loop takes path file chunk (suc rounds) offset ≡ (
          sent (chunk_at path file chunk offset)
              ∷ progress
                  (smaller (offset + length (chunk_at path file chunk offset).bytes) (length file))
                  (length file)
              ∷ (upload_loop takes path file chunk rounds (offset + chunk)).0,
          (upload_loop takes path file chunk rounds (offset + chunk)).1,
        )
    unfolding upload_loop
    loop-more taken goes_on = rw (runs, taken, goes_on) refl

    loop-last :
        takes (chunk_at path file chunk offset) ≡ true
        → (chunk_at path file chunk offset).is_last ≡ true
        → upload_loop takes path file chunk (suc rounds) offset ≡ (
          sent (chunk_at path file chunk offset)
              ∷ progress
                  (smaller (offset + length (chunk_at path file chunk offset).bytes) (length file))
                  (length file)
              ∷ [],
          finished,
        )
    unfolding upload_loop
    loop-last taken ends = rw (runs, taken, ends) refl

  loop-finished :
      ((call : UploadCall) → takes call ≡ true)
      → (rounds offset : ℕ) → ((offset == 0) || ltb offset (length file)) ≡ true
      → length file < offset + rounds
      → (upload_loop takes path file chunk rounds offset).1 ≡ finished
        × Carries path chunk offset
            (drop offset file)
            (calls_of (upload_loop takes path file chunk rounds offset).0)
  unfolding upload_loop chunk_at
  loop-finished h zero offset runs enough = absurd (ground arith)
  loop-finished h (suc rounds) offset runs enough =
      let call = chunk_at path file chunk offset in
      let inside : offset ≤ length file = ground arith in
      elim (Bool-cases (leb (length file) (offset + chunk))) [
        | inl ends ↦
            rw (runs, h call, ends)
              (
                refl,
                (
                  refl,
                  refl,
                  bytes_last file chunk offset ends inside,
                  refl,
                  omega (arith, length-drop offset file, leb→le _ _ ends),
                ),
              )
        | inr goes_on ↦
            let (done, later) =
              loop-finished h rounds (offset + chunk) (ground arith) (omega arith) in
            let bytes = bytes_more file chunk offset goes_on in
            let (size, rest) = rest_more file chunk offset goes_on in
            rw (loop-more rounds offset runs (h call) goes_on) (
              done,
              Carries-cons path chunk offset (drop offset file) (drop (offset + chunk) file) call _
                  (refl, refl, goes_on, ap length bytes ∙ size)
                  (rest ∙ ap (λ t. t ++ drop (offset + chunk) file) (sym bytes)) later,
            )
      ]

chunk_size_positive : (n : ℕ) → 1 ≤ chunk_size n
unfolding chunk_size
chunk_size_positive n = ground arith

-- Where every call is taken, an upload comes to its end, and its calls name the file in the
-- directory and carry its bytes, each call from where the one before it ended: full chunks and then
-- a last call of at most one chunk, which alone is marked as the last. An empty file has one call.
pub upload_file-Carries :
    (takes : UploadCall → Bool) (directory name : Text) (file : Bytes) (chunk_bytes : ℕ)
    → ((call : UploadCall) → takes call ≡ true)
    → ((upload_file takes directory name file chunk_bytes).1 ≡ finished)
      × Carries
          (join_path directory name)
          (chunk_size chunk_bytes)
          0
          file
          (calls_of (upload_file takes directory name file chunk_bytes).0)
unfolding upload_file
upload_file-Carries takes directory name file chunk_bytes h =
    loop-finished takes (join_path directory name) file (chunk_size chunk_bytes)
      (chunk_size_positive chunk_bytes) h (suc (length file)) 0 (ground arith) (omega arith)

-- An upload whose calls were all taken, or that stopped at the first that was not.
abbrev pub Ends : (UploadCall → Bool) → Outcome → List UploadCall → Type 0
Ends takes outcome calls =
    (outcome ≡ finished) × All (λ c. takes c ≡ true) calls
    ⊎ (outcome ≡ refused)
      × ((front : List UploadCall) × (bad : UploadCall) × (calls ≡ front ++ bad ∷ [])
          × All (λ c. takes c ≡ true) front
          × (takes bad ≡ false))

Ends-cons :
    (takes : UploadCall → Bool) (outcome : Outcome) (call : UploadCall) (calls : List UploadCall)
    → takes call ≡ true
    → Ends takes outcome calls
    → Ends takes outcome (call ∷ calls)
Ends-cons takes outcome call calls t (inl (o, all)) = inl (o, (t, all))
Ends-cons takes outcome call calls t (inr (o, (front, bad, e, all, b))) =
    inr (o, (call ∷ front, bad, ap (λ cs. call ∷ cs) e, (t, all), b))

loop-Ends :
    (takes : UploadCall → Bool) (path : Text) (file : Bytes) (chunk : ℕ)
    → 1 ≤ chunk
    → (rounds offset : ℕ) → ((offset == 0) || ltb offset (length file)) ≡ true
    → length file < offset + rounds
    → Ends takes
        (upload_loop takes path file chunk rounds offset).1
        (calls_of (upload_loop takes path file chunk rounds offset).0)
unfolding upload_loop
loop-Ends takes path file chunk k zero offset runs enough = absurd (ground arith)
loop-Ends takes path file chunk k (suc rounds) offset runs enough =
    let call = chunk_at path file chunk offset in
    elim (Bool-cases (takes call)) [
      | inr denied ↦ rw (runs, denied) (inr (refl, ([], call, refl, tt, denied)))
      | inl taken ↦ elim (Bool-cases call.is_last) [
        | inl ends ↦
            rw (loop-last takes path file chunk k rounds offset runs taken ends)
              (inl (refl, (taken, tt)))
        | inr goes_on ↦
            let more : leb (length file) (offset + chunk) ≡ false = unfold chunk_at in goes_on in
            rw (loop-more takes path file chunk k rounds offset runs taken goes_on) (
              Ends-cons takes _ call _ taken (
                loop-Ends takes path file chunk k rounds (offset + chunk) (ground arith)
                  (omega arith)))
      ]
    ]

-- Whatever calls are refused, an upload ends: at its end with every call taken, or right after the
-- first call that was refused.
pub upload_file-Ends :
    (takes : UploadCall → Bool) (directory name : Text) (file : Bytes) (chunk_bytes : ℕ)
    → Ends takes
        (upload_file takes directory name file chunk_bytes).1
        (calls_of (upload_file takes directory name file chunk_bytes).0)
unfolding upload_file
upload_file-Ends takes directory name file chunk_bytes =
    loop-Ends takes (join_path directory name) file (chunk_size chunk_bytes)
      (chunk_size_positive chunk_bytes) (suc (length file)) 0 (ground arith) (omega arith)
