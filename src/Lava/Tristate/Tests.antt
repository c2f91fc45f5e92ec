-- ===== src/Lava/Tristate/Tests.antt =====
-- The theorems about lava/include/lava/support/tristate.hpp at concrete values.
