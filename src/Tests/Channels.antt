-- ===== src/Tests/Channels.antt =====
-- Messages and channels: concrete runs.
use ruix.Prelude.{refl, [], ◌∷◌, arith}
use ruix.Ipc.Message.{Message}
use ruix.Ipc.Channel.{Channel, ChannelRegistry}
use ruix.Ipc.Channel.Fifo.{sends, receives, run, start, IsFifo, run-start-IsFifo}
use ruix.Ipc.Channel.Registry.{IsValid}

abbrev greeting : Message
greeting = record { sender_pid = 1; msg_type = 0; bytes = 104 ∷ 105 ∷ []; data_len = 2 }

abbrev line : Channel
line = record { id = 1; endpoint1 = 1; endpoint2 = 2; queue1_to_2 = []; queue2_to_1 = [] }

abbrev registry : ChannelRegistry
registry = record { channels = line ∷ []; next_id = 2 }

registry-IsValid : IsValid registry
registry-IsValid = record { distinct = (refl, tt); below = (omega arith, tt) }

run-start-IsFifo_example : IsFifo (run (start 1 1 2) (sends 1 greeting ∷ receives 2 ∷ []))
run-start-IsFifo_example = run-start-IsFifo 1 1 2 (sends 1 greeting ∷ receives 2 ∷ [])
