-- ===== src/Runner/Junit.antt =====
-- The text of the report that `write_junit_xml` of cli/src/main.rs writes.
pub mod Escape
use Prim.Native.Char.{Char, code}
use Prim.Native.String.{◌++◌ as append}
use Prim.Native.String
use halley.Common.{
  ℕ, ◌+◌, String, Bool, Option, none, some, List, [], ◌∷◌, ◌==◌, length, if◌then◌else◌, unwrap_or,
  and_then,
}
use halley.Common.Int.{nat_text}
use halley.Common.Text.{replace}
use halley.Json.{Value}
use halley.Runner.Ci.{field_of, as_text, junit_passed, failures, suites_of, merged}

unfoldable pub escaped_name : String → String
unfolding replace
escaped_name name = replace b'"' "&quot;" (replace b'&' "&amp;" name)

unfoldable pub escaped_msg : String → String
unfolding replace
escaped_msg message =
    replace b'"' "&quot;" (replace b'>' "&gt;" (replace b'<' "&lt;" (replace b'&' "&amp;" message)))

-- `name="value"` with a space before it.
abbrev pub attribute : (name value : String) → String
attribute name value = append " " (append name (append "=\"" (append value "\"")))

abbrev failure_text : Bool → String → String
failure_text passed msg =
    if passed
    then ""
    else append "      <failure"
        (append (attribute "message" msg) (append ">" (append msg "</failure>\n")))

-- One test case, and those of a suite.
unfoldable pub case_text : (slug : String) → Value → String
case_text slug r =
    let name = unwrap_or (and_then (field_of r "invariant_name") as_text) "?" in
    let message = unwrap_or (and_then (field_of r "message") as_text) "" in
    append "    <testcase" (
      append (attribute "name" (escaped_name name)) (
        append (attribute "classname" slug) (
          append ">\n"
            (append (failure_text (junit_passed r) (escaped_msg message)) "    </testcase>\n"))))

unfoldable pub cases_text : (slug : String) → List Value → String
unfolding case_text
cases_text slug [] = ""
cases_text slug (r ∷ cases) = append (case_text slug r) (cases_text slug cases)

-- The three counts of a suite, or of the report.
abbrev pub counts_text : List Value → String
counts_text cases =
    append (attribute "tests" (nat_text (length cases)))
      (append (attribute "failures" (nat_text (failures cases))) (attribute "errors" "0"))

unfoldable pub suite_text : String × List Value → String
unfolding cases_text
suite_text (slug, cases) = append "  <testsuite" (
    append (attribute "name" slug) (
      append (counts_text cases)
        (append ">\n" (append (cases_text slug cases) "  </testsuite>\n"))))

unfoldable pub suites_text : List (String × List Value) → String
unfolding suite_text
suites_text [] = ""
suites_text (s ∷ suites) = append (suite_text s) (suites_text suites)

unfoldable pub write_junit_xml : (from_str : String → Option Value) → List String → String
unfolding suites_text suites_of merged
write_junit_xml from_str result_jsons =
    let all = merged from_str result_jsons in
    append "<?xml version=\"1.0\" encoding=\"UTF-8\"?>\n<testsuites" (
      append (counts_text all)
        (append ">\n" (append (suites_text (suites_of all)) "</testsuites>\n")))
