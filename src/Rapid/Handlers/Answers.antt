-- ===== src/Rapid/Handlers/Answers.antt =====
-- x
