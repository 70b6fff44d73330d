-- ===== src/Tests.antt =====
-- A concrete server, library and random source, and the runs and witnesses on them.
mod Fixture
mod Registrations
mod Settings
mod Stores
mod Endpoints
mod Logins
mod Answers
mod Devices
mod Process
mod Challenges
mod Orphans
mod Listings
mod Begins
mod Refusals
mod Journeys
mod Returns
