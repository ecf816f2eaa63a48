-- ===== src/Sockets/Channels.antt =====
-- libsocket/socket.cpp: the channels of a socket, and the slots that they have with the event
-- handler. A call answers with the state that it leaves and its result. The calls of the operating
-- system are arguments: `connect`, what `get_socket_bundle` reads (or its exception), and `close`,
-- which says whether it succeeded. A byte is a number; `no_session` is a new
-- `session_special_data`. The `std::string` of a peer id stands by the id and the bundle in it.
pub mod Links
pub mod Delete
pub mod Add
pub mod Join
pub mod Get
pub mod Sound
pub mod Reached
use belt_pp.Base.{
  ℕ, Bool, true, false, Option, none, some, List, [], ◌==◌, not, ◌||◌, Result, ok, err, Fault,
  terminate, runtime_error, if◌then◌else◌, ◌>>=◌,
}
use belt_pp.Queue.{Queue, valid_index, at, put}
use belt_pp.Sockets.Slots.{
  Cursor, seek, rebuild, erase_empty, drain, open_at, make_room, next_id, push_last,
}
use belt_pp.Sockets.Poll.{Epoll, PollMaster, Task, accept_task, connect_task, receive_task, proceed}
use belt_pp.Sockets.Events.{Events, add, remove, set_sync_result}

-- `ip_destination`, `ip_address::e_type`, `ip_address` and `peer_type` of belt.pp/isocket.hpp.
pub record IpDestination : Type 0 where
  pub address : List ℕ
  pub port : ℕ

pub data IpType : Type 0 where
  any ipv4 ipv6 : IpType

pub record IpAddress : Type 0 where
  pub ip_type : IpType
  pub local : IpDestination
  pub remote : IpDestination

pub data PeerType : Type 0 where
  listening streaming_opened streaming_accepted : PeerType

-- `sync_result` of libsocket/native.hpp.
pub record SyncResult : Type 0 where
  pub is_set : Bool
  pub succeeded : Bool
  pub error_code : ℕ

abbrev pub no_address : IpAddress
no_address = record {
  ip_type = any;
  local = record { address = []; port = 0 };
  remote = record { address = []; port = 0 };
}

abbrev pub no_sync : SyncResult
no_sync = record { is_set = false; succeeded = false; error_code = 0 }

abbrev pub no_bytes : Queue ℕ
no_bytes = record { start = 0; size = 0; loops = 0; buf = [] }

pub record Channel (S : Type 0) : Type 0 where
  pub closed : Bool
  pub descriptor : Option ℕ
  pub kind : PeerType
  pub attempts : ℕ
  pub eh_id : ℕ
  pub bundle : IpAddress
  pub bundle_from_network : IpAddress
  pub receive_stream : Queue ℕ
  pub send_stream : Queue ℕ
  pub special_data : S
  pub sync : SyncResult

abbrev pub channel_closed : {S : Type 0} → Channel S → Bool
channel_closed c = c.closed

-- The event handler, and `m_lst_channels`.
pub record Sockets (K S : Type 0) : Type 0 where
  pub events : Events K
  pub channels : List (Queue (Channel S))

pub record Net (K : Type 0) : Type 0 where
  pub connect : K → Option ℕ → List ℕ → K × SyncResult
  pub socket_bundle : K → Option ℕ → Result IpAddress
  pub close : K → ℕ → K × Bool

-- What the event handler waits for.
unfoldable pub task_of : PeerType → ℕ → Task
task_of listening attempts = accept_task
task_of kind attempts = if attempts == 0 then receive_task else connect_task

-- `get_channel` and `get_channel_safe`.
module _ {K S : Type 0} where
  unfoldable pub get_channel : ℕ → Sockets K S → Result (Channel S)
  get_channel id s = elim (seek (λ q. valid_index q id) s.channels) [
    | none ↦ err runtime_error
    | some c ↦ at c.here id
  ]

  unfoldable pub get_channel_safe : ℕ → Sockets K S → Result (Option (Channel S))
  get_channel_safe id s = elim (seek (open_at channel_closed id) s.channels) [
    | none ↦ ok none
    | some c ↦ do channel ← at c.here id; ok (some channel)
  ]

  abbrev pub kernel_of : Sockets K S → K
  kernel_of s = s.events.poll.kernel

-- The state with another kernel.
abbrev pub with_kernel : {K : Type 0} → K → Events K → Events K
with_kernel k e = record e { poll = record { kernel = k; arr_event = e.poll.arr_event } }

-- `socket_bundle`: the remote end of a channel that is to connect stays the one asked for.
unfoldable pub bundle_for : Task → IpAddress → IpAddress → IpAddress
bundle_for connect_task address bundle = record bundle { remote = address.remote }
bundle_for _ address bundle = bundle

module _ {S : Type 0} (no_session : S) where
  abbrev pub blank_channel : Channel S
  blank_channel = record {
    closed = false;
    descriptor = none;
    kind = listening;
    attempts = 0;
    eh_id = 0;
    bundle = no_address;
    bundle_from_network = no_address;
    receive_stream = no_bytes;
    send_stream = no_bytes;
    special_data = no_session;
    sync = no_sync;
  }

  -- What is left of a channel that is deleted.
  abbrev pub shut : Channel S → Channel S
  shut c = record c {
    closed = true;
    descriptor = none;
    receive_stream = no_bytes;
    send_stream = no_bytes;
    special_data = no_session;
  }

module _ {K : Type 0} (net : Net K) where
  -- `native::connect` for a channel that is to connect, with `set_sync_result`.
  unfoldable pub connecting : Task → Option ℕ → ℕ → List ℕ → Events K → Events K × SyncResult
  connecting connect_task handle eh_id addr e =
      let (k, sync) = net.connect e.poll.kernel handle addr in
      let e' = with_kernel k e in (if sync.is_set then set_sync_result eh_id e' else e', sync)
  connecting _ handle eh_id addr e = (e, no_sync)

  -- `socket_handle::reset`, which makes the handle `invalid_value`.
  unfoldable pub reset_handle : Option ℕ → K → K × Bool
  reset_handle none k = (k, true)
  reset_handle (some handle) k = net.close k handle

-- The guard of `add_channel`; an exception in its destructor ends the program.
unfoldable pub undo {ℓ} :
    {K S : Type 0} {V : Type ℓ} (epoll : Epoll K)
    → Option ℕ
    → ℕ
    → Fault
    → Sockets K S
    → Sockets K S × Result V
undo epoll handle eh_id f s =
    proceed (remove epoll handle eh_id false false s.events)
      (λ e _. (record s { events = e }, err terminate)) (λ e _. (record s { events = e }, err f))

module _ {K S : Type 0} (no_session : S) (epoll : Epoll K) (net : Net K) where
  unfoldable pub add_channel :
      ℕ
      → Option ℕ
      → PeerType
      → ℕ
      → List ℕ
      → IpAddress
      → Sockets K S
      → Sockets K S × Result (ℕ × IpAddress)
  add_channel self handle kind attempts addr address s =
      elim (make_room (blank_channel no_session) 4 s.channels) [
        | err f ↦ (s, err f)
        | ok chans ↦
            let id = next_id chans in
            let action = task_of kind attempts in
            proceed (add epoll self handle id action false 0 s.events)
              (λ e f. (record { events = e; channels = chans }, err f))
              (λ e eh_id.
                let (e', sync) = connecting net action handle eh_id addr e in
                let s' : Sockets K S = record { events = e'; channels = chans } in
                elim (net.socket_bundle e'.poll.kernel handle) [
                  | err f ↦ undo epoll handle eh_id f s'
                  | ok network ↦
                      let bundle = bundle_for action address network in
                      let channel : Channel S = record {
                        closed = false;
                        descriptor = handle;
                        kind = kind;
                        attempts = attempts;
                        eh_id = eh_id;
                        bundle = bundle;
                        bundle_from_network = network;
                        receive_stream = no_bytes;
                        send_stream = no_bytes;
                        special_data = no_session;
                        sync = sync;
                      } in
                      elim (push_last (blank_channel no_session) channel chans) [
                        | err f ↦ undo epoll handle eh_id f s'
                        | ok chans' ↦ (record s' { channels = chans' }, ok (id, bundle))
                      ]
                ])
      ]

  unfoldable pub delete_channel : ℕ → Sockets K S → Sockets K S × Result (Unit {0})
  delete_channel id s = elim (seek (open_at channel_closed id) s.channels) [
    | none ↦ (s, ok tt)
    | some c ↦ elim (at c.here id) [
      | err f ↦ (s, err f)
      | ok channel ↦
          let (k, close_succeeded) = reset_handle net channel.descriptor (kernel_of s) in
          let e = with_kernel k s.events in
          elim (put c.here id (shut no_session channel)) [
            | err f ↦ (record s { events = e }, err f)
            | ok q ↦
                proceed (remove epoll none channel.eh_id true false e)
                  (λ e' f. (record { events = e'; channels = rebuild c q }, err f))
                  (λ e' _. elim (drain channel_closed q) [
                    | err f ↦ (record { events = e'; channels = rebuild c q }, err f)
                    | ok q' ↦ (
                      record { events = e'; channels = erase_empty c q' },
                      if close_succeeded then ok tt else err runtime_error,
                    )
                  ])
          ]
    ]
  ]

  -- The branch of `receive` for a connection that has come about: the slot is kept for the same id,
  -- now to receive, and the channel's fields are set. `current_channel` is a reference, so what was
  -- assigned before an exception stays.
  unfoldable pub connect_success : ℕ → ℕ → Sockets K S → Sockets K S × Result (Unit {0})
  connect_success self id s = elim (seek (open_at channel_closed id) s.channels) [
    | none ↦ (s, ok tt)
    | some c ↦ elim (at c.here id) [
      | err f ↦ (s, err f)
      | ok channel ↦
          proceed (remove epoll channel.descriptor channel.eh_id false true s.events)
            (λ e f. (record s { events = e }, err f))
            (λ e _.
              proceed (add epoll self channel.descriptor id receive_task true channel.eh_id e)
                (λ e' f. (record s { events = e' }, err f))
                (λ e' eh_id.
                  let set = record channel { eh_id = eh_id; attempts = 0 } in
                  let write = λ (channel' : Channel S) (after : Result (Unit {0})).
                    let r : Sockets K S × Result (Unit {0}) = elim (put c.here id channel') [
                      | err f ↦ (record s { events = e' }, err f)
                      | ok q ↦ (record { events = e'; channels = rebuild c q }, after)
                    ] in
                    r in
                  elim (net.socket_bundle e'.poll.kernel channel.descriptor) [
                    | err f ↦ write set (err f)
                    | ok network ↦ write (record set { bundle_from_network = network }) (ok tt)
                  ]))
    ]
  ]
