-- ===== src/AuthProto.antt =====
-- helpers/authproto.c and helpers/authproto.h: the packet protocol between the authentication
-- dialog and the PAM helper. `Fd` is what the program assumes of read(2) and write(2) on a pipe;
-- `Read` and `Write` translate the functions of authproto.c; `RoundTrip` and `Errors` prove.
pub mod Fd
pub mod Decimal
pub mod Read
pub mod Write
pub mod RoundTrip
pub mod Sound
pub mod Tests
