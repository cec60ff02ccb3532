-- ===== src/Tests/Pages.antt =====
-- The pages of user 9, who has booked the sample desk.
