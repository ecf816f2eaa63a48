-- ===== src/Lib.antt =====
-- belt.pp: a verification library for the repository's C++ sources.
--
-- belt.pp is a C++ library for asynchronous message exchange: a socket or a direct stream delivers
-- bytes, a message loader takes packets out of them (raw JSON, or JSON inside HTTP), and packets go
-- through queues to an event handler or to the worker threads of a processor. The parts that every
-- exchange goes through are modelled here.
--
-- Base: what all parts share. Base/Tests has the Boolean tests on numbers and the conditional,
-- Base/Lists the lists that stand for std::vector and std::string, Base/Results what a call can end
-- in besides a value (std::terminate, an exception, an access that C++ leaves undefined, a loop cut
-- off by the model's bound), Base/Words the arithmetic of size_t modulo 2 ^ 64.
--
-- Queue: src/belt.pp/queue.hpp, the ring buffer. Queue.antt has the record of the four members
-- (start, size, loops and buf for m_i_start, m_i_size, m_i_loops and m_vec_queue) and one function
-- for each operation: next2pow, capacity2pow, the constructor (construct), begin_index, end_index,
-- valid_index, push (append behind reserve), pop, front, operator [] (at to read, put to write),
-- reserve (grow for its first loop, relocate for its second) and get_free_range. All index
-- arithmetic wraps at 2 ^ 64. Queue/Contents has the invariant and the elements that a queue holds,
-- Queue/Model the abstract queue, Queue/Refine the comparison of the two; the other files below
-- Queue prove one operation each. The loops run on fuel: next2pow and grow have 65 rounds, which is
-- enough since each doubles a number below 2 ^ 64, and relocate has one round more than the size.
--
-- Json: src/belt.pp/json.hpp, the string values. Json/Utf has detail::utf16_check, the code point
-- of a surrogate pair and detail::utf32_to_utf8; Json/Decoder has value_string::decode, with the
-- variables of its loop as the record Decoder and its body cut into scan (the chain of tests on a
-- byte), settle (the surrogates) and flush (into utf8_value); Json/Encoder has value_string::encode
-- and Json/Lexer value_string::parse; Json/Pieces has the strings that decode is to read. The loops go
-- over the bytes of a text, so they need no fuel. A char is a number below 256. Json/Lexers has the
-- other lexers (operator_comma, operator_colon, scope_brace and scope_bracket as scope, value_bool,
-- value_null, discard) and their list; Json/Reads and Json/Texts run them through the parser.
--
-- Parser: src/belt.pp/parser.hpp, at the number types of json_parser_types: addresses and counts are
-- reduced modulo 2 ^ 32. Parser.antt has expression_data (Node, with the union as Info) and
-- expression_tree (Tree), Parser/Place parse_helper, cut into its two loops (seek, enclosing), its
-- branch for operators (place_operator, with point_to, fix_same, insert and relink) and its branch
-- for values (place_value, with append_child), Parser/Read the lexer bases, readers::parse, parse,
-- parse_stream and parse_full, and Parser/Token check and check_number. A template parameter (the
-- list of lexers, the limits, the default operator) is an argument. Parser/Valid has the invariant of
-- the tree; Grow, Insert, Keeps, Placing and Helper prove that parse_helper keeps it, Search what its
-- loops find, Complete what complete tells, Round and Stream what the callers do. parse_stream runs on
-- one round more than the input has bytes, and each round but the last takes one or more.
--
-- Http: src/belt.pp/http.hpp. Http/Split has request::split, Http/Percent request::from_hex and
-- request::percent_decode, Http/Request request::set (set_url) and request::add_property. Http/Scan
-- has check_begin and check_end of src/belt.pp/parser.hpp, Http/Number stoui64 of
-- src/belt.pp/global.hpp over the C library's strtoull, Http/Protocol the phases of protocol that
-- read the request line and the header lines, and Http/Session protocol as a whole, with what it
-- leaves in the session: the guard, the limits, the content and the answer to OPTIONS. An iterator
-- into a text is the list of the bytes from it to the end, or the offset from where the text begins.
-- The loops run on as many rounds as the text has bytes, and each round takes one byte or more; that
-- over the header lines has one round more, since the round that ends it may take no byte. An
-- unordered_map is the list of its entries. Http/Fuel has that these rounds are enough, on every text.
--
-- Processor: src/libprocessor/processor.cpp, processor_ex. Processor.antt has the members as the record
-- Pool and the place where each thread of loop_ex is, Processor/Steps one function for what happens
-- under one hold of the mutex: send and its notify_one, receive, the parts of setCoreCount (set_count, spawn,
-- notify_all, join), loop_ex up to the worker (enter) and behind it (leave), the worker's answers
-- (respond), wait and the event handler's wait, each as a call and a test, and wake. step takes one
-- of them, and Runs has them in any order. The worker is an argument: the packets it sends for a
-- package before it returns or throws. The two queues are lists, as Queue.Refine allows. One call of
-- wait and one of the event handler are there at a time. Flow and Loop say what each step does,
-- Whole, Live and Callers what holds of whole runs. No step runs on fuel.
--
-- Math: src/belt.pp/math_expression.hpp, its lexers (the five binary operators as binary_operator) with
-- the white space of discard_lexer_base, and the multiplication that stands between neighbours; the
-- strtod of the C library is an argument, with what it promises on a text that a zero byte ends: to
-- read no further. Timer: src/belt.pp/timer.hpp, with the readings of the clock
-- as an argument; the loop of update runs on fuel, and the bound on the readings says how much is
-- enough. Guards: src/belt.pp/scope_helper.hpp, on_failure and finally, with the cleanups that a
-- program's guards hold, and those that have run; an assignment is given whether the cleanup that it
-- runs throws.
--
-- Sockets: the tables of src/libsocket. Sockets/Slots has what the channels of socket.cpp and the slots of
-- event_impl.hpp share, a std::list of beltpp::queue whose indices follow one another, with the
-- searches (seek), the queue for a full one (make_room, push_last) and the loop that pops closed
-- elements (drain, erase_empty). Sockets/Poll is the Linux poll master of poll_master.hpp over
-- epoll_ctl, Sockets/Events event_handler_impl (add, remove), Sockets/Channels add_channel, get_channel,
-- get_channel_safe, delete_channel and the branch of receive for a connection (connect_success), and
-- Sockets/Wait event_handler_ex::wait and waited of event.cpp, Sockets/PeerId construct_peer_id,
-- parse_peer_id and ip_address::to_string of src/belt.pp/isocket.hpp, and Sockets/Stream async_send and
-- send of native.cpp (send_bytes), with the bytes that wait on a channel. The calls of the operating
-- system and what get_socket_bundle reads with them are arguments. A call answers with the state that it
-- leaves and its result, so that what stands after an exception shows. The loops that pop run on one
-- round more than the queue has elements. Queue/Laws says what one call does to a queue that holds a
-- given sequence; Held,
-- Keeps and Split below Slots say it for the list, Links below Channels which channel has which slot.
--
-- Tests: each result below that has hypotheses or arguments, applied to concrete data.
--
-- Not modelled: listening, opening and reading on a socket, the poll masters of other systems
-- and TLS (src/libsocket, src/belt.pp/tls.hpp), the direct stream (src/libdirect_stream), logging,
-- packets, file locks
-- and other calls of the operating system (src/liblog, src/libutility), the code generator of the
-- message language (src/idl), and templates that only pass calls on. Of the queue, the iterators and
-- copying are left out; of protocol, the other layers of the session's list of statuses; of the
-- parser, dump, the readers that PARSE_OLD selects and json::parse_stream; of the processor,
-- processor_old and the pointer that the event handler keeps.
pub mod Base
pub mod Queue
pub mod Json
pub mod Parser
pub mod Math
pub mod Processor
pub mod Sockets
pub mod Timer
pub mod Guards
pub mod Http
mod Tests
