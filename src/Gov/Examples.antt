-- ===== src/Gov/Examples.antt =====
-- The governance contract on a platform with concrete functions, from its instantiation to the
-- execution of a poll.
mod Scenario
mod Polls
mod Stakes
