-- ===== src/Analysis/Loops/Threatened.antt =====
-- src/semantics-analyze.cxx: control variables that inner blocks have changed.
