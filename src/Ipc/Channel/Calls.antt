-- ===== src/Ipc/Channel/Calls.antt =====
-- ipc.rs, `syscalls`: the calls on channels, for the process `current`. A channel that
-- `get_channel_mut` finds is changed in place.
use ruix.Prelude.{ℕ, Option, none, some, List, ◌==◌, if◌then◌else◌, update_first}
use ruix.Error.{Result, ok, err, IpcError}
use ruix.Ipc.Message.{Message}
use ruix.Ipc.Message
use ruix.Ipc.Channel.{ChannelRegistry, has_id, send, receive, create_channel, get_channel}

unfoldable pub create : ChannelRegistry → ℕ → ℕ → Option (Result IpcError ℕ × ChannelRegistry)
unfolding create_channel
create r current target =
    if current == target
    then some (err IpcError.circular_transfer, r)
    else create_channel r current target

unfoldable pub send_message :
    ChannelRegistry → ℕ → ℕ → ℕ → List ℕ → Result IpcError (Unit {0}) × ChannelRegistry
unfolding send Message.new get_channel
send_message r current id msg_type slice =
    let message = Message.new current msg_type slice in
    elim (get_channel r id) [
      | none ↦ (err IpcError.channel_not_found, r)
      | some c ↦ (
        (send c current message).0,
        record r {
          channels = update_first (has_id id) (λ d. (send d current message).1) r.channels;
        },
      )
    ]

unfoldable pub receive_message :
    ChannelRegistry → ℕ → ℕ → Result IpcError (Option Message) × ChannelRegistry
unfolding receive get_channel
receive_message r current id = elim (get_channel r id) [
  | none ↦ (err IpcError.channel_not_found, r)
  | some c ↦ (
    ok (receive c current).0,
    record r { channels = update_first (has_id id) (λ d. (receive d current).1) r.channels },
  )
]
