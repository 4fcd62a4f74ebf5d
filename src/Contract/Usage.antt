-- ===== src/Contract/Usage.antt =====
-- components/command-contract/src/main.c: the usage text.
use p101_test.Base.{Text, codes, [], ◌∷◌, ◌++◌}

abbrev usage_line : Text → Text → Text → Text
usage_line lead program rest = lead ++ program ++ rest ++ (b'\n' ∷ [])

unfoldable pub usage_text : Text → Text
usage_text program =
    usage_line (codes "Usage: ") program
      (codes " [-d:human|json|human,json] determinism -- COMMAND [ARG...]")
    ++ usage_line (codes "       ") program
        (codes " [-d:human|json|human,json] redaction SENSITIVE_PROBE -- COMMAND [ARG...]")
    ++ usage_line (codes "       ") program
        (codes " [-d:human|json|human,json] output-limit MAXIMUM_BYTES -- COMMAND [ARG...]")
    ++ usage_line (codes "       ") program
        (codes " [-d:human|json|human,json] time-limit MAXIMUM_MILLISECONDS -- COMMAND [ARG...]")
    ++ usage_line (codes "       ") program
        (codes " [-d:human|json|human,json] recovery EXPECTED_STATUS -- COMMAND [ARG...]")
    ++ usage_line (codes "       ") program (
        codes
          " [-d:human|json|human,json] schema-compatibility EXPECTED_STATUS -- COMMAND [ARG...]")
    ++ usage_line (codes "       ") program (
        codes
          " [-d:human|json|human,json] side-effect-determinism EFFECT_MANIFEST -- COMMAND [ARG...]")
