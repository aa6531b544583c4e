-- ===== src/Delivery.antt =====
-- internal/app/transitions.go, `planDelivery`: the one delivery planner. It turns a target's library
-- snapshot and the desired candidates into the list of actions and the retirements.
-- Names, which tells candidates apart before a plan is made, is from internal/app/replacement.go.
pub mod Candidate
pub mod Retire
pub mod Plan
pub mod Justified
pub mod Items
pub mod HandOff
pub mod Ownership
pub mod Retirement
pub mod Names
pub mod Distinct
pub mod Effects
pub mod Outcome
pub mod Deliver
pub mod Resume
pub mod Cleanup
pub mod Execute
pub mod FileEffects
pub mod Foreign
