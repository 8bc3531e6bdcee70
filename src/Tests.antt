-- ===== src/Tests.antt =====
-- Tests: concrete states, and the theorems at them.
pub mod Admissions
pub mod Bulks
pub mod Contexts
pub mod Creations
pub mod Data
pub mod Demos
pub mod Destructions
pub mod Ends
pub mod Exits
pub mod FreshPools
pub mod Halted
pub mod Levels
pub mod Lists
pub mod Moves
pub mod Objects
pub mod Pages
pub mod Pools
pub mod Process
pub mod Programs
pub mod Queues
pub mod Reapings
pub mod Rounds
pub mod Searches
pub mod Sessions
pub mod Stacks
pub mod Starts
pub mod Statuses
pub mod Steps
pub mod Threads
pub mod Updates
pub mod Walks
pub mod Yields
