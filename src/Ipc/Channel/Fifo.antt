-- ===== src/Ipc/Channel/Fifo.antt =====
-- ipc.rs: in each direction a channel is a bounded first-in first-out queue.
use ruix.Prelude.{
  ℕ, ◌≤◌, ◌≡◌, ◌≢◌, refl, ◌∙◌, sym, ap, ◌<◌, ◌↔◌, ◌⊎◌, inl, inr, Bool-cases, true, false, Option,
  none, some, List, [], ◌∷◌, ◌++◌, arith, ◌==◌, if◌then◌else◌, length, length-append, append_assoc,
  append-nil,
}
use ruix.Error.{err, IpcError, is_ok}
use ruix.Ipc.Message.{Message}
use ruix.Ipc.Channel.{Channel, has_endpoint, new, pop_front, send, receive, max_queue_size}

pub data Call : Type 0 where
  sends : ℕ → Message → Call
  receives : ℕ → Call

-- A channel, with the messages that it accepted from each endpoint and delivered to each, oldest first.
pub record Traffic : Type 0 where
  pub channel : Channel
  pub accepted1 : List Message
  pub accepted2 : List Message
  pub delivered1 : List Message
  pub delivered2 : List Message

abbrev to_list : Option Message → List Message
to_list none = []
to_list (some m) = m ∷ []

pub step : Traffic → Call → Traffic
step t (sends pid m) =
    let (result, c) = send t.channel pid m in
    let taken = if is_ok result then m ∷ [] else [] in
    if pid == t.channel.endpoint1
    then record t { channel = c; accepted1 = t.accepted1 ++ taken }
    else record t { channel = c; accepted2 = t.accepted2 ++ taken }
step t (receives pid) =
    let (m, c) = receive t.channel pid in
    if pid == t.channel.endpoint1
    then record t { channel = c; delivered1 = t.delivered1 ++ to_list m }
    else record t { channel = c; delivered2 = t.delivered2 ++ to_list m }

pub run : Traffic → List Call → Traffic
run t [] = t
run t (c ∷ cs) = run (step t c) cs

abbrev pub start : ℕ → ℕ → ℕ → Traffic
start id pid1 pid2 = record {
  channel = new id pid1 pid2;
  accepted1 = [];
  accepted2 = [];
  delivered1 = [];
  delivered2 = [];
}

-- What one endpoint's messages became: delivered to the other, or still queued, and within bounds.
pub record IsFifo (t : Traffic) : Type 0 where
  pub forward : t.accepted1 ≡ t.delivered2 ++ t.channel.queue1_to_2
  pub backward : t.accepted2 ≡ t.delivered1 ++ t.channel.queue2_to_1
  pub bounded1 : length t.channel.queue1_to_2 ≤ max_queue_size
  pub bounded2 : length t.channel.queue2_to_1 ≤ max_queue_size

sends-IsFifo : (t : Traffic) (pid : ℕ) (m : Message) → IsFifo t → IsFifo (step t (sends pid m))
unfolding step send
sends-IsFifo t pid m v = record {
  forward =
      ground
        (arith, append-nil t.accepted1, append_assoc t.delivered2 t.channel.queue1_to_2 (m ∷ []));
  backward =
      ground
        (arith, append-nil t.accepted2, append_assoc t.delivered1 t.channel.queue2_to_1 (m ∷ []));
  bounded1 = ground (arith, length-append t.channel.queue1_to_2 (m ∷ []));
  bounded2 = ground (arith, length-append t.channel.queue2_to_1 (m ∷ []));
}

pop_front_lem :
    (q : List Message)
    → (to_list (pop_front q).0 ++ (pop_front q).1 ≡ q) × (length (pop_front q).1 ≤ length q)
pop_front_lem [] = (refl, omega arith)
pop_front_lem (m ∷ ms) = (refl, omega arith)

-- Popping moves a message from the queue to the end of what was delivered.
moved : (done q : List Message) → done ++ q ≡ (done ++ to_list (pop_front q).0) ++ (pop_front q).1
moved done q =
    ap (◌++◌ done) (sym (pop_front_lem q).0)
    ∙ sym (append_assoc done (to_list (pop_front q).0) (pop_front q).1)

receives-IsFifo : (t : Traffic) (pid : ℕ) → IsFifo t → IsFifo (step t (receives pid))
unfolding step receive
receives-IsFifo t pid v =
    let q1 = t.channel.queue1_to_2 in
    let q2 = t.channel.queue2_to_1 in
    record {
      forward = ground (arith, v.forward, moved t.delivered2 q1, append-nil t.delivered2);
      backward = ground (arith, v.backward, moved t.delivered1 q2, append-nil t.delivered1);
      bounded1 = ground (arith, v.bounded1, (pop_front_lem q1).1);
      bounded2 = ground (arith, v.bounded2, (pop_front_lem q2).1);
    }

run-IsFifo : (cs : List Call) (t : Traffic) → IsFifo t → IsFifo (run t cs)
unfolding run
run-IsFifo [] t v = v
run-IsFifo (sends pid m ∷ cs) t v = run-IsFifo cs _ (sends-IsFifo t pid m v)
run-IsFifo (receives pid ∷ cs) t v = run-IsFifo cs _ (receives-IsFifo t pid v)

-- Whatever calls are made on a new channel, by whatever processes, the messages accepted from an
-- endpoint are those delivered to the other one followed by those still queued, in the same order,
-- and neither queue holds more than 1000 messages.
pub run-start-IsFifo : (id pid1 pid2 : ℕ) (cs : List Call) → IsFifo (run (start id pid1 pid2) cs)
unfolding new
run-start-IsFifo id pid1 pid2 cs =
    run-IsFifo cs _
      (record { forward = refl; backward = refl; bounded1 = omega arith; bounded2 = omega arith })

-- A process that is no endpoint can neither put a message into the channel nor take one out.
outsider_lem :
    (c : Channel) (pid : ℕ) (m : Message)
    → has_endpoint pid c ≡ false
    → (send c pid m ≡ (err IpcError.invalid_sender, c)) × (receive c pid ≡ (none, c))
unfolding send receive
outsider_lem c pid m h = ground arith

-- A message is refused exactly when it comes from no endpoint or finds 1000 messages in the queue
-- of its direction.
send_accepts :
    (c : Channel) (pid : ℕ) (m : Message)
    → (is_ok (send c pid m).0 ≡ true) ↔ (
        ((pid ≡ c.endpoint1) × (length c.queue1_to_2 < max_queue_size))
        ⊎ ((pid ≢ c.endpoint1) × (pid ≡ c.endpoint2) × (length c.queue2_to_1 < max_queue_size)))
unfolding send
send_accepts c pid m = (
  λ h. elim (Bool-cases (pid == c.endpoint1)) [
    | inl e ↦ inl (ground arith, ground arith)
    | inr e ↦ inr (ground arith, ground arith, ground arith)
  ],
  λ h. ground arith,
)
