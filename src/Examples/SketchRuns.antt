-- ===== src/Examples/SketchRuns.antt =====
-- The property of the sketch at a concrete input.
