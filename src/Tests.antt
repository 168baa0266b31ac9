-- ===== src/Tests.antt =====
-- Concrete stand-ins for what the program does not implement, and runs of the theorems on small data.
mod Instances
mod Tokens
mod Users
mod Tweets
mod Timelines
mod Gateways
mod Pools
mod Counters
mod Startups
