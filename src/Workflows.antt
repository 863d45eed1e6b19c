-- ===== src/Workflows.antt =====
-- The workflows that a run executes (adws/): the test phase, the review loop, the
-- zero-touch pipeline, the choice of ports, the retries of a prompt, the state that the
-- scripts share, and the class, the branch and the spec file of an issue. Comments on the
-- issue and log lines are left out.
pub mod Tests
pub mod Zte
pub mod Ports
pub mod Retry
pub mod Review
pub mod State
pub mod Classify
pub mod Branches
pub mod Specs
