-- ===== src/Plan.antt =====
-- adminos/domain/plan.py: the order in which a review's groups are worked, agreed before it is
-- worked, and what a review still owes.
pub mod Arrange
pub mod Begin
pub mod Standing
