-- ===== src/Server.antt =====
-- The epoll server (util/include/tc_epoll_server.h, util/src/tc_epoll_server.cpp).
pub mod Slices
pub mod Adjust
pub mod Connection
pub mod Delivery
pub mod Sending
pub mod Receiving
pub mod NetThread
pub mod Steps
pub mod Valid
pub mod Registry
pub mod Pipe
pub mod Safety
pub mod Exhausted
pub mod Dispatch
pub mod Rounds
mod Tests
