-- ===== src/Job.antt =====
-- What an operation does to the world: the actions of the libraries that it calls, with the
-- resources that it opens and closes and the replies that it sends on the way.
pub mod Monad
pub mod Effects
pub mod Balance
pub mod Outcomes
