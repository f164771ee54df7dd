-- ===== src/Cli/GoMod.antt =====
-- getProjectName of cmd/go-api-boot/util.go on the text of a go.mod file.
use go_api_boot.Base.{
  ◌⊎◌, inl, inr, str_beq_iff, ℕ, Str, codes, List, [], ◌∷◌, ◌++◌, true, false, Option, none, some,
  Result, ok, err, ◌≡◌, ◌≢◌, refl, arith, All, ap, sym, ◌∙◌, ◌==◌, nat_eq, str_eq, str_beq,
  if◌then◌else◌, length, leb,
}
use go_api_boot.Strings.{
  has_prefix, trim_prefix, split, trim_space, trim_left, trim_right, push_right, is_space,
}
use go_api_boot.Strings.Split.{Lacks, split-cons, split-append}
use go_api_boot.Strings.Trim.{push_right_tail, trim_right_idem, trim_right-trim_left}
use go_api_boot.Cli.{Scan, is_skipped, find_module, directive, no_directive}

-- bufio.ScanLines of a text that is read without an error: a carriage return at the end of a line is
-- dropped, as is a last line that is empty, and a line of 64 KB ends the scanning with an error.
unfoldable pub drop_return : Str → Str
drop_return [] = []
drop_return (c ∷ []) = if c == 13 then [] else c ∷ []
drop_return (c ∷ d ∷ s) = c ∷ drop_return (d ∷ s)

abbrev before : Str → Scan → Scan
before line sc = record { tokens = (drop_return line, none) ∷ sc.tokens; failure = sc.failure }

abbrev too_long : Scan
too_long = record { tokens = []; failure = some (codes "bufio.Scanner: token too long") }

abbrev at_end : Scan
at_end = record { tokens = []; failure = none }

unfoldable pub scan_lines : List Str → Scan
unfolding drop_return str_beq
scan_lines [] = at_end
scan_lines (line ∷ lines) =
    let rest = scan_lines lines in
    if leb 65536 (length line) then too_long else elim lines [
      | [] ↦ if line == codes "" then at_end else before line at_end
      | _ ∷ _ ↦ before line rest
    ]

unfoldable pub scan : Str → Scan
unfolding scan_lines split
scan text = scan_lines (split 10 text)

-- What getProjectName finds in a text.
unfoldable pub module_of : Str → Result Str Str
unfolding scan find_module
module_of text = find_module (scan text).tokens (scan text).failure

-- A line that is shorter than the scanner's buffer.
pub record IsLine (line : Str) : Type 0 where
  pub one_line : Lacks 10 line
  pub short : leb 65536 (length line) ≡ false

-- A line without space around it that is blank, or a comment.
abbrev pub IsPassed : Str → Type 0
IsPassed line = (line ≡ []) ⊎ (has_prefix line (codes "//") ≡ true)

is_skipped-true : (line : Str) → IsPassed line → is_skipped line ≡ true
unfolding is_skipped
is_skipped-true line (inl e) = ground (arith, str_beq_iff line [])
is_skipped-true line (inr e) = ground (arith, str_beq_iff line [])

is_skipped-false :
    (line : Str) → line ≢ [] → has_prefix line (codes "//") ≡ false → is_skipped line ≡ false
unfolding is_skipped
is_skipped-false line n e = ground (arith, str_beq_iff line [])

-- A line that is blank or a comment, whatever space is around it.
pub record IsSkipped (line : Str) : Type 0 where
  pub is_line : IsLine line
  pub passed : IsPassed (trim_space (drop_return line))

-- The text of these lines, with a line break behind each.
unfoldable pub lines_text : List Str → Str → Str
lines_text [] rest = rest
lines_text (line ∷ lines) rest = line ++ 10 ∷ lines_text lines rest

scan_lines-cons :
    (line p : Str) (ps : List Str)
    → leb 65536 (length line) ≡ false
    → scan_lines (line ∷ p ∷ ps) ≡ before line (scan_lines (p ∷ ps))
unfolding scan_lines
scan_lines-cons line p ps h = rw h

scan-append : (line rest : Str) → IsLine line → scan (line ++ 10 ∷ rest) ≡ before line (scan rest)
unfolding scan
scan-append line rest h =
    let (p, ps, e) = split-cons 10 rest in
    ap scan_lines (split-append 10 line rest h.one_line ∙ ap (λ t. line ∷ t) e)
    ∙ scan_lines-cons line p ps h.short
    ∙ ap (λ t. before line (scan_lines t)) (sym e)

-- Lines that are passed over change nothing.
module_of-skipped :
    (lines : List Str) (rest : Str)
    → All IsSkipped lines
    → module_of (lines_text lines rest) ≡ module_of rest
unfolding module_of lines_text find_module
module_of-skipped [] rest h = refl
module_of-skipped (line ∷ lines) rest (hl, h) =
    rw
      (
        scan-append line (lines_text lines rest) hl.is_line,
        is_skipped-true (trim_space (drop_return line)) hl.passed,
      )
      (module_of-skipped lines rest h)

-- The right end of a trimmed text is trimmed.
trim_right-trimmed : (s : Str) → trim_space s ≡ s → trim_right s ≡ s
unfolding trim_space
trim_right-trimmed s h =
    ap trim_right (sym h) ∙ trim_right-trim_left (trim_right s) (trim_right_idem s) ∙ h

trim_space-directive :
    (c : ℕ) (name : Str)
    → trim_space (c ∷ name) ≡ c ∷ name
    → trim_space (directive ++ c ∷ name) ≡ directive ++ c ∷ name
unfolding trim_space trim_right push_right trim_left
trim_space-directive c name h = rw (trim_right-trimmed (c ∷ name) h) refl

drop_return-append :
    (s : Str) (c : ℕ) (t : Str) → drop_return (s ++ c ∷ t) ≡ s ++ drop_return (c ∷ t)
unfolding drop_return
drop_return-append [] c t = refl
drop_return-append (d ∷ []) c t = refl
drop_return-append (d ∷ e ∷ s) c t = ap (λ r. d ∷ r) (drop_return-append (e ∷ s) c t)

-- A trimmed text has no carriage return at its end.
drop_return-trimmed : (s : Str) → trim_right s ≡ s → drop_return s ≡ s
unfolding drop_return trim_right push_right is_space
drop_return-trimmed [] h = refl
drop_return-trimmed (c ∷ []) h = ground arith
drop_return-trimmed (c ∷ d ∷ s) h =
    ap (λ r. c ∷ r) (drop_return-trimmed (d ∷ s) (push_right_tail c (trim_right (d ∷ s)) (d ∷ s) h))

found_directive :
    (c : ℕ) (name : Str) (more : List (Str × Option Str)) (failure : Option Str) (line : Str)
    → trim_space (c ∷ name) ≡ c ∷ name
    → trim_space line ≡ directive ++ c ∷ name
    → find_module ((line, none) ∷ more) failure ≡ ok (c ∷ name)
unfolding find_module is_skipped has_prefix trim_prefix
found_directive c name more failure line h e = rw e (ap ok h)

other_directive :
    (more : List (Str × Option Str)) (failure : Option Str) (line : Str)
    → is_skipped (trim_space line) ≡ false
    → has_prefix (trim_space line) directive ≡ false
    → find_module ((line, none) ∷ more) failure ≡ err no_directive
unfolding find_module
other_directive more failure line h e = rw (h, e)

module_of-directive :
    (name rest : Str)
    → name ≢ []
    → trim_space name ≡ name
    → IsLine (directive ++ name)
    → module_of ((directive ++ name) ++ 10 ∷ rest) ≡ ok name
unfolding module_of
module_of-directive [] rest nonempty trimmed l = absurd (nonempty refl)
module_of-directive (c ∷ name) rest nonempty trimmed l =
    rw (scan-append (directive ++ c ∷ name) rest l) (
      found_directive c name (scan rest).tokens (scan rest).failure
        (drop_return (directive ++ c ∷ name)) trimmed
        (ap trim_space (
            drop_return-append directive c name
            ∙ ap (λ t. directive ++ t)
                (drop_return-trimmed (c ∷ name) (trim_right-trimmed (c ∷ name) trimmed)))
          ∙ trim_space-directive c name trimmed))

other_line :
    (line rest : Str)
    → IsLine line
    → trim_space (drop_return line) ≢ []
    → has_prefix (trim_space (drop_return line)) (codes "//") ≡ false
    → has_prefix (trim_space (drop_return line)) directive ≡ false
    → module_of (line ++ 10 ∷ rest) ≡ err no_directive
unfolding module_of
other_line line rest l text code plain = rw (scan-append line rest l) (
    other_directive (scan rest).tokens (scan rest).failure (drop_return line)
      (is_skipped-false (trim_space (drop_return line)) text code) plain)

-- The first line that is neither blank nor a comment decides, whatever follows it. If it is `module`
-- and a name, without space around it, the name is found, with all that stands behind it on the
-- line. If it is any other line, no module is found.
pub module_of_cases :
    (lines : List Str) (name line rest : Str)
    → All IsSkipped lines
    → name ≢ []
    → trim_space name ≡ name
    → IsLine (directive ++ name)
    → IsLine line
    → trim_space (drop_return line) ≢ []
    → has_prefix (trim_space (drop_return line)) (codes "//") ≡ false
    → has_prefix (trim_space (drop_return line)) directive ≡ false
    → (module_of (lines_text lines ((directive ++ name) ++ 10 ∷ rest)) ≡ ok name)
      × (module_of (lines_text lines (line ++ 10 ∷ rest)) ≡ err no_directive)
module_of_cases lines name line rest h nonempty trimmed l m text code plain = (
  module_of-skipped lines _ h ∙ module_of-directive name rest nonempty trimmed l,
  module_of-skipped lines _ h ∙ other_line line rest m text code plain,
)
