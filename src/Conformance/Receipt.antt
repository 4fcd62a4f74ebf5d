-- ===== src/Conformance/Receipt.antt =====
-- components/conformance/src/main.c: `write_receipt`.
use p101_test.Base.{
  ℕ, Text, codes, Bool, false, ◌&&◌, Option, none, some, List, [], ◌∷◌, ◌++◌, ltb, ◌==◌,
  if◌then◌else◌, length, size_add, decimal, M, ◌>>=◌, return, call,
}
use p101_test.System.{System}
use p101_test.Conformance.Types.{ApiRecord, Conformance, ConformanceLibrary}

-- The two counters of the loop over the functions.
unfoldable pub count_calls : List ApiRecord → ℕ × ℕ → ℕ × ℕ
count_calls [] counts = counts
count_calls (api ∷ apis) counts = count_calls apis (
    if api.trace_applicable
    then (size_add counts.0 1, if ltb 0 api.enters then size_add counts.1 1 else counts.1)
    else counts)

-- The expansion of the format: `%s`, `%zu` and the literal text between them, in the order of the
-- arguments that the source gives.
unfoldable pub receipt_text : Text → Conformance → ℕ × ℕ → Text
receipt_text library c counts =
    codes "{\"schema\":\"p101-wrapper-conformance-library-v1\",\"library\":\""
    ++ library
    ++ codes "\",\"apis\":"
    ++ decimal (length c.apis)
    ++ codes ",\"trace_applicable\":"
    ++ decimal counts.0
    ++ codes ",\"invoked\":"
    ++ decimal counts.1
    ++ codes ",\"fault_cases\":"
    ++ decimal c.fault_outcomes_observed
    ++ codes ",\"fault_outcomes_observed\":"
    ++ decimal (length c.faults)
    ++ codes ",\"findings\":"
    ++ decimal c.findings
    ++ codes ",\"passed\":"
    ++ (if c.findings == 0 then codes "true" else codes "false")
    ++ codes "}\n"

module _ (S : System) (L : ConformanceLibrary S) where
  open S use {World, Stream, fopen, fclose}
  open L use {fprintf}

  abbrev pub put_receipt : Text → Option Stream → M World Bool
  put_receipt text none = return false
  put_receipt text (some stream) = do
    written ← call (fprintf stream text)
    closed ← call (fclose stream)
    return (written && closed)

  unfoldable pub write_receipt : Text → Text → Conformance → M World Bool
  unfolding count_calls receipt_text
  write_receipt path library c =
      let text = receipt_text library c (count_calls c.apis (0, 0)) in
      do stream ← call (fopen path (codes "w")); put_receipt text stream
