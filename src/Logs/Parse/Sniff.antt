-- ===== src/Logs/Parse/Sniff.antt =====
-- The format that a log starts in.
use openshift_console.Prelude.{
  ◌≡◌, inl, inr, Bool, true, false, ◌||◌, List, [], ◌∷◌, none, some, if◌then◌else◌, refl,
  Bool-cases, Option-cases,
}
use openshift_console.Prelude.Text.{Text}
use openshift_console.Logs.Parse.Entry.{Runtime, plain, json, ecs}
use openshift_console.Logs.Parse.Record.{decode_record}
use openshift_console.Logs.Parse.Line.{is_ecs, sniff_from, sniff_format}

module _ {N : Type 0} (rt : Runtime N) where
  abbrev pub is_record : Text → Bool
  is_record line = elim (decode_record rt line) [ none ↦ false | some fs ↦ true ]

  abbrev pub is_ecs_line : Text → Bool
  is_ecs_line line = elim (decode_record rt line) [ none ↦ false | some fs ↦ is_ecs rt fs ]

  abbrev pub any : (Text → Bool) → List Text → Bool
  any test [] = false
  any test (line ∷ lines) = test line || any test lines

  or_true : (b c : Bool) → (b || (true || c)) ≡ true
  or_true true c = refl
  or_true false c = refl

  sniff_from-any :
      (saw_json : Bool) (lines : List Text)
      → sniff_from rt saw_json lines ≡ (
          if any is_ecs_line lines
          then ecs
          else if saw_json || any is_record lines
          then json
          else plain)
  unfolding sniff_from
  sniff_from-any true [] = refl
  sniff_from-any false [] = refl
  sniff_from-any saw_json (line ∷ lines) = elim (Option-cases (decode_record rt line)) [
    | inl e ↦ rw (sniff_from, any, is_ecs_line, is_record, e) (sniff_from-any saw_json lines)
    | inr (fs, e) ↦ elim (Bool-cases (is_ecs rt fs)) [
      | inl m ↦ rw (sniff_from, any, is_ecs_line, is_record, e, m) refl
      | inr m ↦
          rw (sniff_from, any, is_ecs_line, is_record, e, m, or_true saw_json _)
            (sniff_from-any true lines)
    ]
  ]

  -- A log is taken for ECS exactly if one of its lines is a record with the marks of ECS, wherever
  -- it stands, else for JSON exactly if one of its lines is a record, else for plain text.
  pub sniff_format-any :
      (lines : List Text)
      → sniff_format rt lines
        ≡ (if any is_ecs_line lines then ecs else if any is_record lines then json else plain)
  unfolding sniff_format
  sniff_format-any lines = sniff_from-any false lines
