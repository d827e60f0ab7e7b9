-- ===== src/Logs/Ansi/Visible.antt =====
-- What is left of a text with its escape sequences taken out, and the runs that hold it.
use openshift_console.Prelude.{ℕ, zero, suc, [], ◌∷◌, if◌then◌else◌}
use openshift_console.Prelude.Text.{Text}
use openshift_console.Logs.Ansi.Scan.{is_escape, scan_escape}

-- The characters that no escape sequence holds, in a number of rounds.
unfoldable pub visible : ℕ → Text → Text
visible rounds [] = []
visible zero (c ∷ s) = []
visible (suc rounds) (c ∷ s) =
    let kept = visible rounds s in
    let skipped = visible rounds (scan_escape c s).0 in if is_escape c then skipped else c ∷ kept
