-- ===== src/Main.antt =====
-- src/main.cpp: the options, the choice of what to do, and what is printed. argp, the kernel and the
-- network are arguments.
pub mod Options
pub mod Output
pub mod Modes
