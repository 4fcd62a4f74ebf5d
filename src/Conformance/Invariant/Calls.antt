-- ===== src/Conformance/Invariant/Calls.antt =====
-- `load_instrumentation` and `load_model` of components/conformance/src/main.c, and what they keep.
use p101_test.Base.{ℕ, Text, codes, Bool, not, Option, none, some, text_eq, State, M, if_cases}
use p101_test.System.{System}
use p101_test.Conformance.Types.{ApiRecord, Conformance, ConformanceLibrary}
use p101_test.Conformance.Table.{has_usr, has_name}
use p101_test.Conformance.Documents.{token_boolean}
use p101_test.Conformance.Instrumentation as Seen
use p101_test.Conformance.RunModel as Run
use p101_test.Conformance.Invariant.Steps.{IsState, update_apis-IsState}
use p101_test.Conformance.Invariant.Documents.{each_row-IsState}

module _ (S : System) (L : ConformanceLibrary S) where
  open S use {World}
  open L use {Json}

  -- The state that an action leaves is within its arrays.
  abbrev pub Keeps : M World (Bool × Conformance) → Type 0
  Keeps m = (s : State World) → IsState (m s).0.1

  trace_api-IsState :
      (usr : Text) (c : Conformance) (has_env : Option Bool)
      → IsState c
      → IsState (Seen.trace_api S L usr c has_env).1
  trace_api-IsState usr c none v = v
  trace_api-IsState usr c (some has_env) v =
      update_apis-IsState (has_usr usr) (Seen.mark_traced has_env) c (λ a f. f) v

  see_api-IsState :
      (document : Json) (row : ℕ) (usr : Text) (c : Conformance) (found : Option ApiRecord)
      → IsState c
      → Keeps (Seen.see_api S L document row usr c found)
  unfolding Seen.see_api
  see_api-IsState document row usr c none v = λ s. v
  see_api-IsState document row usr c (some api) v = λ s.
      trace_api-IsState usr _ (token_boolean S L document row (codes "has_env"))
        (update_apis-IsState (has_usr usr) Seen.mark_seen c (λ a f. f) v)

  with_usr-IsState :
      (document : Json) (row : ℕ) (c : Conformance) (usr : Option Text)
      → IsState c
      → Keeps (Seen.with_usr S L document row c usr)
  with_usr-IsState document row c none v = λ s. v
  with_usr-IsState document row c (some usr) v = see_api-IsState document row usr c _ v

  with_library-IsState :
      (library : Text) (document : Json) (row : ℕ) (c : Conformance) (name : Option Text)
      → IsState c
      → Keeps (Seen.with_library S L library document row c name)
  with_library-IsState library document row c none v = λ s. v
  with_library-IsState library document row c (some name) v =
      if_cases Keeps (not (text_eq name library)) (λ e s. v)
        λ e s. with_usr-IsState document row c _ v _

  capabilities-IsState :
      (library : Text) (document : Json) (c : Conformance) (array : Option ℕ)
      → IsState c
      → Keeps (Seen.capabilities S L library document c array)
  unfolding Seen.capabilities Seen.capability
  capabilities-IsState library document c none v = λ s. v
  capabilities-IsState library document c (some array) v =
      if_cases Keeps (not (L.json_is_array document array)) (λ e s. v)
        λ e s.
          each_row-IsState S L document array (Seen.capability S L library document)
            (λ row c s v. with_library-IsState library document row c _ v _)
            (L.json_child_count document array) 0 c s v

  check_passed-IsState :
      (library : Text) (document : Json) (c : Conformance) (passed : Option Bool)
      → IsState c
      → Keeps (Seen.check_passed S L library document c passed)
  unfolding Seen.check_passed
  check_passed-IsState library document c none v = λ s. v
  check_passed-IsState library document c (some passed) v =
      if_cases Keeps (not passed) (λ e s. v) λ e. capabilities-IsState library document c _ v

  check_schema-IsState :
      (library : Text) (document : Json) (c : Conformance) (schema : Option Text)
      → IsState c
      → Keeps (Seen.check_schema S L library document c schema)
  unfolding Seen.check_schema
  check_schema-IsState library document c none v = λ s. v
  check_schema-IsState library document c (some schema) v =
      if_cases Keeps (not (text_eq schema (codes "p101-instrumentation-platform-receipt-v1")))
        (λ e s. v) λ e. check_passed-IsState library document c _ v

  with_receipt-IsState :
      (library : Text) (c : Conformance) (document : Option Json)
      → IsState c
      → Keeps (Seen.with_receipt S L library c document)
  with_receipt-IsState library c none v = λ s. v
  with_receipt-IsState library c (some document) v =
      λ s. check_schema-IsState library document c _ v _

  pub load_instrumentation-IsState :
      (path library : Text) (c : Conformance)
      → IsState c
      → Keeps (Seen.load_instrumentation S L path library c)
  unfolding Seen.load_instrumentation
  load_instrumentation-IsState path library c v = λ s. with_receipt-IsState library c _ v _

  note_enter-IsState :
      (document : Json) (row : ℕ) (name kind : Text) (c : Conformance) (s : State World)
      → IsState c
      → IsState (Run.note_enter S L document row name kind c s).0
  unfolding Run.note_enter
  note_enter-IsState document row name kind c s v =
      if_cases (λ (m : M World Conformance). IsState (m s).0) (text_eq kind (codes "call-enter"))
        (λ e. update_apis-IsState (has_name name) _ c (λ a f. f) v) (λ e. v)

  note_exit-IsState :
      (document : Json) (row : ℕ) (name kind : Text) (c : Conformance) (s : State World)
      → IsState c
      → IsState (Run.note_exit S L document row name kind c s).0
  unfolding Run.note_exit
  note_exit-IsState document row name kind c s v =
      if_cases (λ (m : M World Conformance). IsState (m s).0) (text_eq kind (codes "call-exit"))
        (λ e. update_apis-IsState (has_name name) _ c (λ a f. f) v) (λ e. v)

  note_call-IsState :
      (document : Json) (row : ℕ) (name kind : Text) (c : Conformance) (found : Option ApiRecord)
      → IsState c
      → Keeps (Run.note_call S L document row name kind c found)
  unfolding Run.note_call
  note_call-IsState document row name kind c none v = λ s. v
  note_call-IsState document row name kind c (some api) v = λ s.
      note_exit-IsState document row name kind _ _ (note_enter-IsState document row name kind c s v)

  with_kind-IsState :
      (document : Json) (row : ℕ) (name : Text) (c : Conformance) (kind : Option Text)
      → IsState c
      → Keeps (Run.with_kind S L document row name c kind)
  with_kind-IsState document row name c none v = λ s. v
  with_kind-IsState document row name c (some kind) v =
      note_call-IsState document row name kind c _ v

  with_call-IsState :
      (document : Json) (row : ℕ) (c : Conformance) (name : Option Text)
      → IsState c
      → Keeps (Run.with_call S L document row c name)
  with_call-IsState document row c none v = λ s. v
  with_call-IsState document row c (some name) v = λ s. with_kind-IsState document row name c _ v _

  with_domain-IsState :
      (document : Json) (row : ℕ) (c : Conformance) (domain : Option Text)
      → IsState c
      → Keeps (Run.with_domain S L document row c domain)
  with_domain-IsState document row c none v = λ s. v
  with_domain-IsState document row c (some domain) v =
      if_cases Keeps (not (text_eq domain (codes "call"))) (λ e s. v)
        λ e s. with_call-IsState document row c _ v _

  nodes-IsState :
      (document : Json) (c : Conformance) (array : Option ℕ)
      → IsState c
      → Keeps (Run.nodes S L document c array)
  unfolding Run.nodes Run.node
  nodes-IsState document c none v = λ s. v
  nodes-IsState document c (some array) v =
      if_cases Keeps (not (L.json_is_array document array)) (λ e s. v)
        λ e s.
          each_row-IsState S L document array (Run.node S L document)
            (λ row c s v. with_domain-IsState document row c _ v _)
            (L.json_child_count document array) 0 c s v

  check_model-IsState :
      (document : Json) (c : Conformance) (schema : Option Text)
      → IsState c
      → Keeps (Run.check_schema S L document c schema)
  unfolding Run.check_schema
  check_model-IsState document c none v = λ s. v
  check_model-IsState document c (some schema) v =
      if_cases Keeps (not (text_eq schema (codes "p101-run-model-v1"))) (λ e s. v)
        λ e. nodes-IsState document c _ v

  with_model-IsState :
      (c : Conformance) (document : Option Json) → IsState c → Keeps (Run.with_model S L c document)
  with_model-IsState c none v = λ s. v
  with_model-IsState c (some document) v = λ s. check_model-IsState document c _ v _

  pub load_model-IsState :
      (path : Text) (c : Conformance) → IsState c → Keeps (Run.load_model S L path c)
  unfolding Run.load_model
  load_model-IsState path c v = λ s. with_model-IsState c _ v _
