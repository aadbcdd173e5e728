-- ===== src/Wg/Interfaces/Lifecycle/Refines.antt =====
-- The requests on interfaces implement the specification.
