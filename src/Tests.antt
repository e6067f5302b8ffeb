-- ===== src/Tests.antt =====
-- Concrete runs of the program's parts.
mod Codec
mod Sample
mod Values
mod People
mod Requests
mod Sessions
mod Dashboards
mod Answers
mod Seeds
