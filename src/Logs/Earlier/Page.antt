-- ===== src/Logs/Earlier/Page.antt =====
-- What a page does when it arrives.
use openshift_console.Prelude.{
  All, map, ℕ, suc, ◌≡◌, ◌++◌, ◌∷◌, ◌==◌, ◌&&◌, not, Bool, true, false, List, [], none, some, refl,
  ap, sym, ◌∙◌, arith, Bool-cases, inl, inr, length,
}
use openshift_console.Prelude.Text.{Text, Lacks, split, join}
use openshift_console.Logs.Buffer.{LogBuffer}
use openshift_console.Logs.Buffer.Front.{prepend}
use openshift_console.Logs.Buffer.View.{IsValid, lines}
use openshift_console.Logs.Buffer.Spec.{trim_cr}
use openshift_console.Logs.Pagination.Journal.{split-text_of_lines}
use openshift_console.Logs.Buffer.Scan.{front_lines, nonempty}
use openshift_console.Logs.Buffer.History.{prepend-Fronted, length-zero}
use openshift_console.Logs.Stream.{Thrown, message_for}
use openshift_console.Logs.Earlier.{
  PagingState, Fetch, Paging, update, finish, chunk_of, at_start, arrive_lines, arrive, fail,
  Fetched, resolved, rejected, settle, take_at, settle_at, Event, settles, step, steps, mount,
}
use openshift_console.Logs.Earlier.Flight.{
  IsSingle, steps-mount-IsSingle, state_for_own, finish_lem,
}

-- The lines of a page that are not empty, without a carriage return at their ends.
abbrev pub page_lines : Fetched → List Text
page_lines (resolved []) = []
page_lines (resolved ([] ∷ ls)) = page_lines (resolved ls)
page_lines (resolved ((c ∷ l) ∷ ls)) = trim_cr (c ∷ l) ∷ page_lines (resolved ls)
page_lines (rejected e) = []

-- The lines of a page hold no line break.
abbrev pub AreLines : Fetched → Type 0
AreLines (resolved ls) = All (Lacks 10) ls
AreLines (rejected e) = Unit

-- What `prepend` makes of the page.
abbrev added_lines : Fetched → List Text
added_lines (resolved ls) = front_lines (chunk_of ls)
added_lines (rejected e) = []

-- The state behind a page with some new lines: what ends the paging is a page without lines, or an
-- error.
abbrev pub page_state : List Text → Fetched → PagingState → PagingState
page_state new (resolved ls) st = record st {
  loading = false;
  can_load = st.can_load && not (length new == 0);
}
page_state new (rejected e) st = record st {
  loading = false;
  can_load = false;
  error = some (message_for e);
}

pub record IsPaged (new : List Text) (s : Fetched) (p q : Paging) : Type 0 where
  pub shown : lines q.buffer ≡ new ++ lines p.buffer
  pub stated : q.state ≡ page_state new s p.state
  pub free : q.in_flight ≡ none

nonempty-append_blank : (ls : List Text) → nonempty (ls ++ [] ∷ []) ≡ nonempty ls
unfolding nonempty
nonempty-append_blank [] = refl
nonempty-append_blank ([] ∷ ls) = nonempty-append_blank ls
nonempty-append_blank ((c ∷ l) ∷ ls) =
    ap {A = List Text} {B = List Text} (λ t. (c ∷ l) ∷ t) (nonempty-append_blank ls)

page_lines-nonempty : (ls : List Text) → map trim_cr (nonempty ls) ≡ page_lines (resolved ls)
unfolding nonempty
page_lines-nonempty [] = refl
page_lines-nonempty ([] ∷ ls) = page_lines-nonempty ls
page_lines-nonempty ((c ∷ l) ∷ ls) =
    ap {A = List Text} {B = List Text} (λ t. trim_cr (c ∷ l) ∷ t) (page_lines-nonempty ls)

added_lines-page_lines : (s : Fetched) → AreLines s → added_lines s ≡ page_lines s
unfolding front_lines chunk_of
added_lines-page_lines (rejected e) h = refl
added_lines-page_lines (resolved []) h = unfold join split nonempty in refl
added_lines-page_lines (resolved (l ∷ ls)) h =
    ap (λ t. map trim_cr (nonempty t)) (split-text_of_lines l ls h)
    ∙ ap (map trim_cr) (nonempty-append_blank (l ∷ ls))
    ∙ page_lines-nonempty (l ∷ ls)

no_lines : front_lines (chunk_of []) ≡ []
unfolding front_lines chunk_of join split nonempty
no_lines = refl

suc_not_zero : (n : ℕ) → (suc n == 0) ≡ false
suc_not_zero n = ground arith

and_true : (b : Bool) → (b && true) ≡ b
and_true b = ground arith

and_false : (b : Bool) → (b && false) ≡ false
and_false b = ground arith

module _ (c : ℕ) (k : Text) (p : Paging) (own : p.in_flight ≡ some c)
    (same_key : p.state.key ≡ k) where
  abbrev call : Fetch
  call = record { controller = c; key = k; aborted = false }

  -- The `finally` behind a state of the call's key.
  finish-IsPaged :
      (s : Fetched) (b : LogBuffer) (st : PagingState)
      → st.key ≡ k
      → lines b ≡ added_lines s ++ lines p.buffer
      → record st { loading = false } ≡ page_state (added_lines s) s p.state
      → IsPaged (added_lines s) s p (finish call (record p { state = st; buffer = b }))
  finish-IsPaged s b st e more stated =
      rw (finish_lem call (record p { state = st; buffer = b }) own) (record {
        shown = more;
        stated =
            ap {A = PagingState} (λ t. record t { loading = false }) (state_for_own k st e)
            ∙ stated;
        free = refl;
      })

  fail-IsPaged : (e : Thrown) → IsPaged [] (rejected e) p (fail call e p)
  unfolding fail update
  fail-IsPaged e =
      rw (state_for_own k p.state same_key)
        (finish-IsPaged (rejected e) p.buffer _ same_key refl refl)

  at_start-IsPaged :
      (ls : List Text) (b : LogBuffer)
      → lines b ≡ lines p.buffer
      → front_lines (chunk_of ls) ≡ []
      → IsPaged
          (front_lines (chunk_of ls))
          (resolved ls)
          p
          (finish call (at_start call (record p { buffer = b })))
  unfolding at_start update
  at_start-IsPaged ls b same nothing = rw (state_for_own k p.state same_key) (
      finish-IsPaged (resolved ls) b (record (p.state) { can_load = false }) same_key
        (rw nothing same)
        (rw nothing (
          ap (λ x. record (p.state) { loading = false; can_load = x })
            (sym (and_false p.state.can_load)))))

  arrive_lines-IsPaged :
      (ls : List Text)
      → IsValid p.buffer
      → IsPaged (front_lines (chunk_of ls)) (resolved ls) p (finish call (arrive_lines call ls p))
  unfolding arrive_lines
  arrive_lines-IsPaged ls v =
      let (fronted, added) = prepend-Fronted p.buffer (chunk_of ls) v in
      elim (Bool-cases (length (front_lines (chunk_of ls)) == 0)) [
        | inl none_left ↦
            let nothing = length-zero (front_lines (chunk_of ls)) none_left in
            rw (added, none_left)
              (at_start-IsPaged ls (prepend p.buffer (chunk_of ls)).0
                (fronted.shown ∙ ap (λ t. t ++ lines p.buffer) nothing) nothing)
        | inr some_left ↦
            rw (added, some_left)
              (finish-IsPaged (resolved ls) (prepend p.buffer (chunk_of ls)).0 p.state same_key
                fronted.shown
                (rw some_left (
                  ap (λ x. record (p.state) { loading = false; can_load = x })
                    (sym (and_true p.state.can_load)))))
      ]

  settle-IsPaged : (s : Fetched) → IsValid p.buffer → IsPaged (added_lines s) s p (settle call s p)
  unfolding settle arrive
  settle-IsPaged (resolved []) v = at_start-IsPaged [] p.buffer refl no_lines
  settle-IsPaged (resolved (l ∷ ls)) v =
      rw (suc_not_zero (length ls)) (arrive_lines-IsPaged (l ∷ ls) v)
  settle-IsPaged (rejected e) v = fail-IsPaged e

only_flight :
    (c : ℕ) (k : Text) (p : Paging)
    → IsSingle p
    → p.fetches ≡ record { controller = c; key = k; aborted = false } ∷ []
    → (p.in_flight ≡ some c) × (p.state.key ≡ k)
only_flight c k p i only = ground (arith, i.flight)

-- A page, of lines without line breaks, or a failure, that settles after any events as the call under
-- way, which was not aborted: its lines that are not empty go in front of the ones that are held,
-- without a carriage return at their ends; the state (which is shown as long as it is of the key that
-- the hook is rendered with) says that nothing loads, and `inFlight` is free; `canLoad` is false
-- there if the page brought no lines, or failed, and then the error is its message.
pub settles-IsPaged :
    (key : Text) (b : LogBuffer) (es : List Event) (c : ℕ) (k : Text) (s : Fetched)
    → IsValid b
    → AreLines s
    → (steps es (mount key b)).fetches ≡ record { controller = c; key = k; aborted = false } ∷ []
    → IsPaged
        (page_lines s)
        s
        (steps es (mount key b))
        (step (settles 0 s) (steps es (mount key b)))
unfolding step settle_at take_at
settles-IsPaged key b es c k s v unbroken only =
    let p = steps es (mount key b) in
    let i = steps-mount-IsSingle key b es v in
    let (own, same_key) = only_flight c k p i only in
    let q = settle-IsPaged c k (record p { fetches = [] }) own same_key s i.valid in
    let new = added_lines-page_lines s unbroken in
    record {
      shown = rw (only, ← new) q.shown;
      stated = rw (only, ← new) q.stated;
      free = rw only q.free;
    }
