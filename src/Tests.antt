-- ===== src/Tests.antt =====
-- The development on concrete sessions, plans and steps.
mod Data
mod Sessions
mod Tools
mod Capabilities
mod Workers
mod Plans
mod Requests
mod Steps
mod Blocks
mod Handles
mod Answers
