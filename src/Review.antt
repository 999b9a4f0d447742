-- ===== src/Review.antt =====
-- review.py (src/python/projectkoios/references): review records, their validation, and the replay
-- of review histories.
pub mod Types
pub mod Checks
pub mod Clock
pub mod Records
pub mod Authoring
pub mod Streams
pub mod Replay
pub mod Laws
pub mod Samples
pub mod Authority
pub mod Fields
pub mod Actors
pub mod Objects
pub mod RoundTrip
mod Tests
