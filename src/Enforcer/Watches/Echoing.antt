-- ===== src/Enforcer/Watches/Echoing.antt =====
-- Which updates of a recommendation the enforcement controller handles.
