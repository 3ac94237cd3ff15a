-- ===== src/Lifecycle/Tests.antt =====
-- Start and Stop on a concrete sequence.
