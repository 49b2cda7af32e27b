-- ===== src/Sock.antt =====
-- The socket calls of src/sockcommon.c and src/sockunix.c that wait, connect, secure and listen.
pub mod Wait
pub mod Start
pub mod Secure
