-- ===== src/Worker/Tests.antt =====
-- A run of the worker on the store of Operations/Tests.
use fgdb.Worker.Durable.{Durable}
