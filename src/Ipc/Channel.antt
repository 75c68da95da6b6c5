-- ===== src/Ipc/Channel.antt =====
-- ipc.rs: a channel holds a bounded queue of messages for each direction; the registry finds a
-- channel by its id, and hands out ids. `none` is a panic by arithmetic overflow.
pub mod Fifo
pub mod Registry
pub mod Calls
use mathlib.Core.Option
use ruix.Prelude.{
  ℕ, ◌+◌, Bool, ◌||◌, not, Option, none, some, List, [], ◌∷◌, ◌++◌, ltb, leb, ◌==◌, if◌then◌else◌,
  find?, retain, map, length, checked_add,
}
use ruix.Error.{Result, ok, err, IpcError}
use ruix.Ipc.Message.{Message}

abbrev pub max_queue_size : ℕ
max_queue_size = 1000

pub record Channel : Type 0 where
  pub id : ℕ
  pub endpoint1 : ℕ
  pub endpoint2 : ℕ
  pub queue1_to_2 : List Message
  pub queue2_to_1 : List Message

unfoldable pub new : ℕ → ℕ → ℕ → Channel
new id pid1 pid2 = record {
  id = id;
  endpoint1 = pid1;
  endpoint2 = pid2;
  queue1_to_2 = [];
  queue2_to_1 = [];
}

unfoldable pub send : Channel → ℕ → Message → Result IpcError (Unit {0}) × Channel
send c sender message =
    if sender == c.endpoint1
    then (if leb max_queue_size (length c.queue1_to_2)
        then (err IpcError.channel_full, c)
        else (ok tt, record c { queue1_to_2 = c.queue1_to_2 ++ message ∷ [] }))
    else if sender == c.endpoint2
    then (if leb max_queue_size (length c.queue2_to_1)
        then (err IpcError.channel_full, c)
        else (ok tt, record c { queue2_to_1 = c.queue2_to_1 ++ message ∷ [] }))
    else (err IpcError.invalid_sender, c)

-- `pop_front`
abbrev pub pop_front : List Message → Option Message × List Message
pop_front [] = (none, [])
pop_front (m ∷ ms) = (some m, ms)

unfoldable pub receive : Channel → ℕ → Option Message × Channel
receive c receiver =
    if receiver == c.endpoint1
    then (let (m, rest) = pop_front c.queue2_to_1 in (m, record c { queue2_to_1 = rest }))
    else if receiver == c.endpoint2
    then (let (m, rest) = pop_front c.queue1_to_2 in (m, record c { queue1_to_2 = rest }))
    else (none, c)

abbrev pub has_endpoint : ℕ → Channel → Bool
has_endpoint pid c = pid == c.endpoint1 || pid == c.endpoint2

pub record ChannelRegistry : Type 0 where
  pub channels : List Channel
  pub next_id : ℕ

abbrev pub empty : ChannelRegistry
empty = record { channels = []; next_id = 1 }

abbrev pub has_id : ℕ → Channel → Bool
has_id id c = c.id == id

unfoldable pub create_channel :
    ChannelRegistry → ℕ → ℕ → Option (Result IpcError ℕ × ChannelRegistry)
unfolding new
create_channel r pid1 pid2 =
    Option.map
      (λ next. (
        ok r.next_id,
        record { channels = r.channels ++ new r.next_id pid1 pid2 ∷ []; next_id = next },
      ))
      (checked_add r.next_id 1)

unfoldable pub get_channel : ChannelRegistry → ℕ → Option Channel
get_channel r id = find? (has_id id) r.channels

unfoldable get_channels_for_process : ChannelRegistry → ℕ → List Channel
get_channels_for_process r pid = retain (has_endpoint pid) r.channels

-- The loop of `cleanup_process_channels` over the ids to remove.
remove_each : List ℕ → List Channel → List Channel
remove_each [] cs = cs
remove_each (id ∷ ids) cs = remove_each ids (retain (λ c. not (has_id id c)) cs)

unfoldable pub cleanup_process_channels : ChannelRegistry → ℕ → ChannelRegistry
unfolding remove_each
cleanup_process_channels r pid = record r {
  channels = remove_each (map (λ c. c.id) (retain (has_endpoint pid) r.channels)) r.channels;
}
