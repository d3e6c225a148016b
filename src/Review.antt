-- ===== src/Review.antt =====
-- adminos/domain/review.py: a review, its groups and its items.
pub mod Rows
pub mod Reading
pub mod Checking
pub mod Deciding
pub mod Permitted
pub mod Filing
pub mod Bulk
pub mod Inert
pub mod States
pub mod Refreshing
pub mod Progress
pub mod Done
pub mod Completion
pub mod Policy
pub mod Collecting
pub mod Unattended
pub mod Opening
pub mod Current
pub mod Filling
pub mod Attended
pub mod Resolving
