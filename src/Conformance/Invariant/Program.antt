-- ===== src/Conformance/Invariant/Program.antt =====
-- The inputs of components/conformance/src/main.c, one behind the other, and what they keep.
use p101_test.Base.{refl, Bool, true, false, State, M, arith}
use p101_test.System.{System}
use p101_test.Conformance.Types.{Conformance, no_conformance, Inputs, ConformanceLibrary}
use p101_test.Conformance.Manifests.{
  load_api_manifest, load_test_manifest, load_conformance_manifest,
}
use p101_test.Conformance.FaultManifest.{load_fault_manifest}
use p101_test.Conformance.Instrumentation.{load_instrumentation}
use p101_test.Conformance.RunModel.{load_model}
use p101_test.Conformance.Outcomes.{load_outcomes}
use p101_test.Conformance.Program.{and_then, load_all}
use p101_test.Conformance.Invariant.Steps.{IsState, observed_count}
use p101_test.Conformance.Invariant.Loaders.{
  load_api_manifest-IsState, load_test_manifest-IsState, load_conformance_manifest-IsState,
  load_fault_manifest-IsState,
}
use p101_test.Conformance.Invariant.Documents.{load_outcomes-IsState}
use p101_test.Conformance.Invariant.Calls.{Keeps, load_instrumentation-IsState, load_model-IsState}

no_conformance-IsState : IsState no_conformance
unfolding observed_count
no_conformance-IsState = record {
  few_apis = omega arith;
  few_faults = omega arith;
  apis_fit = tt;
  faults_fit = tt;
  counted = refl;
}

module _ (S : System) (L : ConformanceLibrary S) where
  and_then-IsState :
      (load : Conformance → M S.World (Bool × Conformance))
      → ((c : Conformance) → IsState c → Keeps S L (load c))
      → (r : Bool × Conformance) → IsState r.1
      → Keeps S L (and_then S L load r)
  and_then-IsState load keep (true, c) v = keep c v
  and_then-IsState load keep (false, c) v = λ s. v

  -- Whatever the calls do, the state behind the inputs has both tables within their arrays, every text
  -- within its array with its final NUL, and a counter of outcomes that is the number of observed faults.
  pub load_all-IsState :
      (inputs : Inputs) (allocated : Bool) (s : State S.World)
      → IsState (load_all S L inputs allocated s).0.1
  unfolding load_all
  load_all-IsState inputs allocated s =
      let i = inputs in
      let v1 =
        and_then-IsState (load_api_manifest S i.repo)
          (λ c v s. load_api_manifest-IsState S i.repo c s v) (allocated, no_conformance)
          no_conformance-IsState s in
      let v2 =
        and_then-IsState (load_test_manifest S i.repo)
          (λ c v s. load_test_manifest-IsState S i.repo c s v) _ v1 _ in
      let v3 =
        and_then-IsState (load_conformance_manifest S i.repo)
          (λ c v s. load_conformance_manifest-IsState S i.repo c s v) _ v2 _ in
      let v4 =
        and_then-IsState (load_fault_manifest S i.platform i.repo i.macros)
          (λ c v s. load_fault_manifest-IsState S i.platform i.repo i.macros c s v) _ v3 _ in
      let v5 =
        and_then-IsState (load_instrumentation S L i.instrumentation i.library)
          (load_instrumentation-IsState S L i.instrumentation i.library) _ v4 _ in
      let v6 = and_then-IsState (load_model S L i.model) (load_model-IsState S L i.model) _ v5 _ in
      and_then-IsState (load_outcomes S L i.outcomes i.library)
        (λ c v s. load_outcomes-IsState S L i.outcomes i.library c s v) _ v6 _
