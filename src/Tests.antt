-- ===== src/Tests.antt =====
-- The module and the programs of the repository, run on concrete inputs: a list for each file and one
-- kernel (Riot/Model.antt).
pub mod Passing
pub mod Calls
pub mod Process
pub mod Programs
pub mod Queue
pub mod Stream
pub mod Streams
pub mod Workers
pub mod Dueling
pub mod Collisions
pub mod Completed
pub mod Answer
pub mod Barrier
