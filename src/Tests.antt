-- ===== src/Tests.antt =====
-- Runs of the definitions at concrete inputs, and each theorem at one.
mod Models
mod ModelTheorems
mod Tasks
mod LifecycleTheorems
mod MergeTheorems
mod ImpactTheorems
mod PatchTheorems
mod TopologyTheorems
mod TraceTheorems
mod Suites
mod SuiteTheorems
