-- ===== src/Logs/Earlier/Flight.antt =====
-- At most one page is under way.
use openshift_console.Prelude.{
  ℕ, zero, suc, ◌≡◌, ◌++◌, ◌∷◌, true, false, List, [], Option, none, some, refl, ap, sym, ◌∙◌,
  arith, Bool-cases, inl, inr,
}
use openshift_console.Prelude.Text.{Text, same}
use openshift_console.Prelude.Text.Equality.{same→eq, same_refl}
use openshift_console.Logs.Buffer.{LogBuffer}
use openshift_console.Logs.Buffer.View.{IsValid}
use openshift_console.Logs.Buffer.History.{prepend-Fronted}
use openshift_console.Logs.Earlier.{
  PagingState, Fetch, Paging, state_for, update, load_earlier, load_unless, is_controller, finish,
  chunk_of, at_start, arrive_lines, arrive, fail, Fetched, resolved, rejected, settle, take_at,
  settle_at, abort_one, Event, renders, loads, settles, unmounts, step, steps, mount,
}

-- The call that is under way, if there is one, is that of `inFlight`, and the state says so.
abbrev pub IsFlight : Option ℕ → List Fetch → PagingState → Type 0
IsFlight none fs st = (fs ≡ []) × (st.loading ≡ false)
IsFlight (some c) fs st =
    (f : Fetch) × (fs ≡ f ∷ []) × (f.controller ≡ c) × (f.key ≡ st.key) × (st.loading ≡ true)

pub record IsSingle (p : Paging) : Type 0 where
  pub flight : IsFlight p.in_flight p.fetches p.state
  pub valid : IsValid p.buffer

state_for-key : (k : Text) (st : PagingState) → (state_for k st).key ≡ k
unfolding state_for
state_for-key k st = elim (Bool-cases (same st.key k)) [
  | inl e ↦ rw e (same→eq st.key k e)
  | inr e ↦ rw e refl
]

pub state_for_own : (k : Text) (st : PagingState) → st.key ≡ k → state_for k st ≡ st
unfolding state_for
state_for_own k st e = rw e (rw (same_refl k) refl)

pub same_controller : (n : ℕ) → is_controller (some n) n ≡ true
same_controller n = ground arith

load_unless-IsSingle :
    (c : Option ℕ) (p : Paging)
    → IsFlight c p.fetches p.state
    → IsSingle p
    → IsSingle (load_unless c p)
unfolding load_unless update
load_unless-IsSingle (some c) p flight i = i
load_unless-IsSingle none p (nothing, idle) i =
    let f : Fetch = record { controller = p.made; key = p.reset_key; aborted = false } in
    record {
      flight =
          (f, ap (λ fs. fs ++ f ∷ []) nothing, refl, sym (state_for-key p.reset_key p.state), refl);
      valid = i.valid;
    }

-- After `finally`, when the call was the one in flight.
pub finish_lem :
    (f : Fetch) (p : Paging)
    → p.in_flight ≡ some f.controller
    → finish f p
      ≡ record p { in_flight = none; state = record (state_for f.key p.state) { loading = false } }
unfolding finish update
finish_lem f p e = rw (e, same_controller f.controller) refl

-- What is true once the call of `inFlight` has settled, of a call that was aborted too.
pub settle-flight :
    (s : Fetched) (f : Fetch) (p : Paging)
    → p.in_flight ≡ some f.controller
    → let q = settle f s p in
      (q.in_flight ≡ none)
      × (q.fetches ≡ p.fetches)
      × (q.state.loading ≡ false)
      × (q.reset_key ≡ p.reset_key)
unfolding settle arrive fail at_start arrive_lines finish update
settle-flight s f p e = let own = same_controller f.controller in ground arith

settle-IsValid :
    (s : Fetched) (f : Fetch) (p : Paging) → IsValid p.buffer → IsValid (settle f s p).buffer
unfolding settle arrive fail at_start arrive_lines finish update
settle-IsValid (resolved ls) f p v =
    let more = (prepend-Fronted p.buffer (chunk_of ls) v).0.valid in ground arith
settle-IsValid (rejected e) f p v = ground arith

IsFlight-none :
    (c : Option ℕ) (fs : List Fetch) (st : PagingState)
    → c ≡ none
    → fs ≡ []
    → st.loading ≡ false
    → IsFlight c fs st
IsFlight-none none fs st e nothing idle = (nothing, idle)
IsFlight-none (some c) fs st e nothing idle = ground arith

take_at-IsSingle :
    (i : ℕ) (s : Fetched) (f : Fetch) (p : Paging)
    → p.fetches ≡ f ∷ []
    → p.in_flight ≡ some f.controller
    → IsSingle p
    → IsSingle (settle_at i s p)
unfolding settle_at take_at
take_at-IsSingle zero s f p e own i =
    let q : Paging = record p { fetches = [] } in
    let (cleared, left, idle, _) = settle-flight s f q own in
    rw e (record {
      flight = IsFlight-none _ _ _ cleared left idle;
      valid = settle-IsValid s f q i.valid;
    })
take_at-IsSingle (suc n) s f p e own i = rw e (rw⁻¹ e i)

settle_at-IsSingle :
    (c : Option ℕ) (i : ℕ) (s : Fetched) (p : Paging)
    → p.in_flight ≡ c
    → IsFlight c p.fetches p.state
    → IsSingle p
    → IsSingle (settle_at i s p)
settle_at-IsSingle none n s p e (nothing, idle) i =
    unfold settle_at take_at in rw nothing (rw⁻¹ nothing i)
settle_at-IsSingle (some c) n s p e (f, only, number, _, _) i =
    take_at-IsSingle n s f p only (e ∙ ap some (sym number)) i

abort_one-IsFlight :
    (c c' : Option ℕ) (fs : List Fetch) (st : PagingState)
    → IsFlight c fs st
    → IsFlight c (abort_one c' fs) st
abort_one-IsFlight none c' fs st (nothing, idle) = unfold abort_one in rw nothing (refl, idle)
abort_one-IsFlight (some c) c' fs st (f, only, number, key, busy) =
    elim (Bool-cases (is_controller c' f.controller)) [
      | inl e ↦
          unfold abort_one in rw (only, e) (record f { aborted = true }, refl, number, key, busy)
      | inr e ↦ unfold abort_one in rw (only, e) (f, refl, number, key, busy)
    ]

step-IsSingle : (e : Event) (p : Paging) → IsSingle p → IsSingle (step e p)
unfolding step load_earlier
step-IsSingle (renders key) p i = record { flight = i.flight; valid = i.valid }
step-IsSingle loads p i = load_unless-IsSingle p.in_flight p i.flight i
step-IsSingle (settles n s) p i = settle_at-IsSingle p.in_flight n s p refl i.flight i
step-IsSingle unmounts p i = record {
  flight = abort_one-IsFlight p.in_flight p.in_flight p.fetches p.state i.flight;
  valid = i.valid;
}

steps-IsSingle : (es : List Event) (p : Paging) → IsSingle p → IsSingle (steps es p)
unfolding steps
steps-IsSingle [] p i = i
steps-IsSingle (e ∷ es) p i = steps-IsSingle es (step e p) (step-IsSingle e p i)

-- After any renders, calls and settlings, over a valid buffer: at most one page is under way, its
-- controller is that of `inFlight`, the state that was last set is of its key and says that it loads;
-- where none is under way, `inFlight` is empty and nothing is said to load; the buffer is valid.
pub steps-mount-IsSingle :
    (key : Text) (b : LogBuffer) (es : List Event) → IsValid b → IsSingle (steps es (mount key b))
unfolding mount
steps-mount-IsSingle key b es v =
    steps-IsSingle es (mount key b) (record { flight = (refl, refl); valid = v })
