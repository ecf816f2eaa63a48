-- ===== src/Sockets.antt =====
-- libsocket/socket.cpp, event_impl.hpp, event.cpp, poll_master.hpp and native.cpp: the tables of
-- channels and of event slots, each a list of `beltpp::queue`s whose indices follow one another, what
-- the event handler tells of them, the peer ids and the bytes that wait to be sent.
pub mod Slots
pub mod Poll
pub mod Events
pub mod Channels
pub mod Wait
pub mod PeerId
pub mod Stream
