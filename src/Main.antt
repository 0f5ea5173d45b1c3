-- ===== src/Main.antt =====
-- main.c: the screen locker itself.
pub mod Blank
pub mod Watch
pub mod Grabs
pub mod Key
pub mod Loop
pub mod Done
pub mod Start
mod Tests
