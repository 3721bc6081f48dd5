-- ===== src/Record/Numbers.antt =====
-- The epoch and the sequence number of the packets that are sent.
