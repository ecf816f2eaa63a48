-- ===== src/Sockets/Poll.antt =====
-- libsocket/poll_master.hpp, the Linux class: the descriptors under watch. What the kernel keeps of
-- the epoll instance is an argument, with its two calls; `none` is their -1, which changes nothing.
-- A handle is `none` for `invalid_value`. `m_arr_event` counts by its length alone: its entries are
-- written by `epoll_wait`.
use belt_pp.Base.{
  ℕ, suc, ◌-◌, Bool, true, false, Option, none, some, if◌then◌else◌, Result, ok, err, Fault,
  runtime_error,
}

pub data Task : Type 0 where
  remove_task accept_task connect_task receive_task send_task : Task

pub record Epoll (K : Type 0) : Type 0 where
  pub ctl_add : K → Option ℕ → ℕ → Bool → Option K
  pub ctl_del : K → Option ℕ → Option K

pub record PollMaster (K : Type 0) : Type 0 where
  pub kernel : K
  pub arr_event : ℕ

-- Whether the descriptor is watched for `EPOLLOUT` too.
abbrev pub wants_out : Task → Bool
wants_out connect_task = true
wants_out send_task = true
wants_out _ = false

-- A call that may throw, what is done with the state when it does, and what follows it.
abbrev pub proceed {ℓ κ ι} :
    {S : Type ℓ} {V : Type κ} {R : Type ι} → S × Result V → (S → Fault → R) → (S → V → R) → R
proceed (s, err f) thrown next = thrown s f
proceed (s, ok v) thrown next = next s v

module _ {K : Type 0} (epoll : Epoll K) where
  unfoldable pub poll_add : Option ℕ → ℕ → Task → PollMaster K → PollMaster K × Result (Unit {0})
  poll_add handle id action p = elim (epoll.ctl_add p.kernel handle id (wants_out action)) [
    | none ↦ (p, err runtime_error)
    | some k ↦ (record { kernel = k; arr_event = suc p.arr_event }, ok tt)
  ]

  unfoldable pub poll_remove : Option ℕ → Bool → PollMaster K → PollMaster K × Result (Unit {0})
  poll_remove handle already_closed p =
      if already_closed
      then (record p { arr_event = p.arr_event - 1 }, ok tt)
      else elim (epoll.ctl_del p.kernel handle) [
        | none ↦ (p, err runtime_error)
        | some k ↦ (record { kernel = k; arr_event = p.arr_event - 1 }, ok tt)
      ]
