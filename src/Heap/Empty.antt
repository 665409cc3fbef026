-- ===== src/Heap/Empty.antt =====
-- When `heap_free` takes an item for empty.
