-- ===== src/Server/Released.antt =====
-- cmd/server/main.go: what `run` holds while it runs, and that it gives all of it back.
