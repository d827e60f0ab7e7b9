-- ===== src/Logs/Earlier/Tests.antt =====
-- The properties at concrete pages.
use openshift_console.Prelude.{List, [], ◌∷◌, none, refl}
use openshift_console.Prelude.Text.{Text, codes}
use openshift_console.Logs.Buffer.{LogBufferOptions, new_buffer}
use openshift_console.Logs.Buffer.History.{new_buffer-IsValid}
use openshift_console.Logs.Stream.{an_error}
use openshift_console.Logs.Earlier.{
  Fetched, resolved, rejected, Event, renders, loads, settles, unmounts, load_earlier, load_unless,
  update, mount, step, steps,
}
use openshift_console.Logs.Earlier.Flight.{IsSingle, steps-mount-IsSingle}
use openshift_console.Logs.Earlier.Page.{IsPaged, page_lines, settles-IsPaged}

abbrev options : LogBufferOptions
options = record { max_lines = none; page_size = none }

abbrev pod : Text
pod = codes "ns/pod/app/false"

-- A page that comes after the container has changed, and a second call before it.
abbrev scrolling : List Event
scrolling =
    loads
    ∷ loads
    ∷ renders (codes "ns/pod/proxy/false")
    ∷ settles 0 (resolved (codes "old" ∷ []))
    ∷ loads
    ∷ settles 0 (rejected (an_error (codes "500 request failed")))
    ∷ unmounts
    ∷ []

steps-mount-IsSingle_example : IsSingle (steps scrolling (mount pod (new_buffer options)))
steps-mount-IsSingle_example =
    steps-mount-IsSingle pod (new_buffer options) scrolling (new_buffer-IsValid options).0

abbrev page : Fetched
page = resolved (codes "one" ∷ codes "two" ∷ [])

settles-IsPaged_example :
    IsPaged
      (page_lines page)
      page
      (steps (loads ∷ loads ∷ []) (mount pod (new_buffer options)))
      (step (settles 0 page) (steps (loads ∷ loads ∷ []) (mount pod (new_buffer options))))
unfolding steps step load_earlier load_unless update mount
settles-IsPaged_example =
    settles-IsPaged pod (new_buffer options) (loads ∷ loads ∷ []) 0 pod page
      (new_buffer-IsValid options).0 ((refl, (refl, (refl, tt))), ((refl, (refl, (refl, tt))), tt))
      refl
