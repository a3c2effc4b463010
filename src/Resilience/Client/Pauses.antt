-- ===== src/Resilience/Client/Pauses.antt =====
-- The pauses between the attempts of a request.
