-- ===== src/LogBuffer.antt =====
-- The log buffer (internal/logbuffer/buffer.go): the most recent records of the master in a ring, with
-- the queries of the web console. Subscribers, whose channels never block a writer, and the
-- conversion of slog records are not modelled. Upper and lower case of package strings are
-- parameters; a sequence number does not reach 2^63.
pub mod Ring
pub mod Query
pub mod Recent
pub mod Search
