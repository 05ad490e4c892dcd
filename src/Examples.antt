-- ===== src/Examples.antt =====
-- Concrete events, filters and stores on which the theorems of the library are applied.
mod Arbiter
mod Boxes
mod Gates
mod GroupExamples
mod Trust
mod Joining
mod Log
mod Moderating
mod Deleting
mod Keeping
mod Sweeps
mod Importing
mod Searching
mod Polling
mod Passing
mod Banning
mod Paying
mod Retrying
