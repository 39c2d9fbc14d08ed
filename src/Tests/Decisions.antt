-- ===== src/Tests/Decisions.antt =====
-- The layout of 83_blob_chunk at a blob of ten bytes in chunks of four.
