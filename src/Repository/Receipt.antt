-- ===== src/Repository/Receipt.antt =====
-- components/repository-receipt/src/main.c: `write_receipt`.
use p101_test.Base.{
  Text, codes, Bool, true, false, not, ◌&&◌, Option, none, some, List, [], ◌∷◌, ◌++◌, ◌==◌,
  if◌then◌else◌, decimal, errno, M, ◌>>=◌, ◌>>◌, return, call, raise, has_error,
}
use p101_test.System.{System}
use p101_test.Repository.Types.{RepositoryResult, ReceiptLibrary}

abbrev pub head_text : Bool → Text
head_text passed =
    codes "{\n  \"schema\": \"p101-repository-test-receipt-v1\",\n  \"passed\": "
    ++ (if passed then codes "true" else codes "false")
    ++ codes ",\n  \"repositories\": ["

abbrev pub tail_text : Text
tail_text =
    codes "\n  ],\n  \"does_not_prove\": \"A clean receipt proves only that each repository-owned "
    ++ codes "test launcher admitted by repos.txt either completed in this campaign or reused "
    ++ codes
        "stricter unit evidence admitted by the runner. It does not prove that an unregistered "
    ++ codes "test, platform, branch, or third-party dependency ran.\"\n}\n"

module _ (S : System) (L : ReceiptLibrary S) where
  open S use {World, Stream, fopen, fclose}
  open L use {write}

  unfoldable pub write_json_string : Stream → Text → M World Bool
  write_json_string stream text = do
    status ← call (L.json_write_string stream text)
    if status.0 == 0 then return true else (do raise (errno status.1); return false)

  -- The texts with what is written in front of each.
  abbrev pub members : RepositoryResult → List (Text × Text)
  members r =
      (codes "\n    {\"repository\": ", r.repository)
      ∷ (codes ", \"unit\": ", r.unit)
      ∷ (codes ", \"fuzz\": ", r.fuzz)
      ∷ (codes ", \"test_log\": ", r.test_log)
      ∷ (codes ", \"fuzz_log\": ", r.fuzz_log)
      ∷ []

  unfoldable pub write_members : Stream → List (Text × Text) → M World (Unit {0})
  unfolding write_json_string
  write_members stream [] = return tt
  write_members stream ((name, text) ∷ rest) = do
    call (write stream name)
    write_json_string stream text
    write_members stream rest

  -- The loop over the records.
  unfoldable pub write_records : Stream → Bool → List RepositoryResult → M World (Unit {0})
  unfolding write_members
  write_records stream first [] = return tt
  write_records stream first (r ∷ records) = do
    (if first then return true else call (write stream (codes ",")))
    write_members stream (members r)
    call
        (write stream (codes ", \"duration_seconds\": " ++ decimal r.duration_seconds ++ codes "}"))
    write_records stream false records

  abbrev pub write_body : Stream → List RepositoryResult → Bool → M World Bool
  write_body stream records false = return false
  write_body stream records true = do
    write_records stream true records
    call (write stream tail_text)
    failed ← has_error
    return (not failed)

  abbrev pub write_opened : List RepositoryResult → Bool → Option Stream → M World Bool
  write_opened records passed none = return false
  write_opened records passed (some stream) = do
    begun ← call (write stream (head_text passed))
    written ← write_body stream records begun
    closed ← call (fclose stream)
    return (written && closed)

  unfoldable pub write_receipt : Text → List RepositoryResult → Bool → M World Bool
  unfolding write_records
  write_receipt path records passed = do
    stream ← call (fopen path (codes "w"))
    write_opened records passed stream
