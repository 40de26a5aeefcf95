-- ===== src/Program.antt =====
-- main.go: the pool program, which joins the node client and the server.
pub mod Loop
pub mod Served
pub mod Steps
pub mod Order
