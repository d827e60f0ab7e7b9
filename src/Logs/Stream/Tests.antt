-- ===== src/Logs/Stream/Tests.antt =====
-- The properties at concrete requests.
use openshift_console.Prelude.{ℕ, ◌≡◌, true, List, [], ◌∷◌, Option, some, refl}
use openshift_console.Prelude.Text.{Text, codes}
use openshift_console.Logs.Stream.{
  Engine, Response, answered, got_bytes, got_end, framed, an_error, Thrown,
}
use openshift_console.Logs.Stream.Hook.{
  Event, renders, reloads, prepends, settles, late, mount, step, steps, start_for,
}
use openshift_console.Logs.Stream.Reach.{IsReached, steps-mount-IsReached, late-view}
use openshift_console.Logs.Stream.Whole.{IsOver, Pieces, arrivals, decoded, reload-ends}

-- A decoder of one byte to a code, which holds back nothing.
abbrev plain_engine : Engine ℕ
plain_engine = record {
  show = λ n. n ∷ [];
  fresh = 0;
  decode = λ d bytes. (d, bytes);
  decode_rest = λ d. [];
}

abbrev good : Response
good = record { ok = true; status = 200; status_text = codes "OK"; has_body = true }

abbrev log_url : Option Text
log_url = some (codes "/log")

-- A stream that is read, interrupted by another URL, with a late chunk and a page in front.
abbrev busy : List Event
busy =
    settles (answered good)
    ∷ settles (got_bytes (codes "one"))
    ∷ renders (some (codes "/other"))
    ∷ late 0 (got_bytes (codes "two"))
    ∷ prepends (codes "zero")
    ∷ settles framed
    ∷ []

steps-mount-IsReached_example : IsReached (steps plain_engine busy (mount log_url))
steps-mount-IsReached_example = steps-mount-IsReached plain_engine log_url busy

late-view_example :
    (step plain_engine (late 0 got_end) (steps plain_engine busy (mount log_url))).view
    ≡ (steps plain_engine busy (mount log_url)).view
late-view_example = late-view plain_engine log_url busy 0 got_end tt

-- Three pieces, with frames between them and a late end of a superseded run.
abbrev pieces : Pieces
pieces =
    ([], codes "on")
    ∷ (settles framed ∷ late 0 got_end ∷ [], codes "e")
    ∷ (settles framed ∷ [], 10 ∷ [])
    ∷ []

abbrev broken : Option Thrown
broken = some (an_error (codes "network error"))

reload-ends_example :
    IsOver plain_engine
      (steps plain_engine
        (reloads
          ∷ (late 0 got_end
              ∷ settles (answered good)
              ∷ arrivals pieces (settles framed ∷ []) broken))
        (steps plain_engine [] (mount log_url)))
      (decoded plain_engine 0 pieces broken)
      broken
unfolding steps mount start_for
reload-ends_example =
    reload-ends plain_engine log_url [] (codes "/log") (late 0 got_end ∷ []) good pieces
      (settles framed ∷ []) broken refl refl refl (tt, tt) (tt, ((tt, (tt, tt)), ((tt, tt), tt)))
      (tt, tt)
