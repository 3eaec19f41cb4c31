-- ===== src/Tests.antt =====
-- Concrete runs of the modelled code, and the theorems at concrete inputs.
mod Fixtures
mod DomainRuns
mod SessionRuns
mod PaymentRuns
mod SafetyRuns
mod LoyaltyRuns
mod OrderRuns
