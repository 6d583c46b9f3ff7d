-- ===== src/Expiry/Overdue.antt =====
-- src/will_delay.c: the list is in the order of the intervals, and so a will can wait for one that is due
-- later.
