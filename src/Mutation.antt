-- ===== src/Mutation.antt =====
-- test-mutation: the mutation campaign of components/mutation.
pub mod Types
pub mod Candidates
pub mod Paths
pub mod Apply
pub mod Compile
pub mod Command
pub mod Execute
pub mod Run
pub mod Status
pub mod Library
pub mod Options
pub mod Report
pub mod Program
pub mod Trees
