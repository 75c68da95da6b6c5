-- ===== src/Ipc/Channel/Registry.antt =====
-- ipc.rs: the channel registry hands out fresh ids, and forgets the channels of a process that ends.
use ruix.Prelude.{
  ◌^◌, ℕ, ◌+◌, ◌<◌, ◌≡◌, ◌≢◌, refl, ◌∙◌, sym, ap, false, not, none, some, List, [], ◌∷◌, ◌++◌,
  arith, ==_refl, if◌then◌else◌, All, All-append, All-retain, contains, retain, without,
  without-nil, without-cons, without-retain, Distinct-retain, Distinct-snoc, find?, map, Distinct,
  Option-cases,
}
use ruix.Error.{Result, ok, IpcError}
use ruix.Ipc.Channel.{
  Channel, ChannelRegistry, has_id, has_endpoint, new, create_channel, get_channel, remove_each,
  cleanup_process_channels,
}

abbrev pub ids : List Channel → List ℕ
ids cs = map (λ c. c.id) cs

-- The ids in use are distinct, and below the next one.
pub record IsValid (r : ChannelRegistry) : Type 0 where
  pub distinct : Distinct (ids r.channels)
  pub below : All (λ c. c.id < r.next_id) r.channels

fresh : (n : ℕ) (cs : List Channel) → All (λ c. c.id < n) cs → contains n (ids cs) ≡ false
fresh n [] h = refl
fresh n (c ∷ cs) h = ground (arith, h.0, fresh n cs h.1)

fresh_find : (n : ℕ) (cs : List Channel) → All (λ c. c.id < n) cs → find? (has_id n) cs ≡ none
fresh_find n [] h = refl
fresh_find n (c ∷ cs) h = ground (arith, h.0, fresh_find n cs h.1)

below_mono : (n : ℕ) (cs : List Channel) → All (λ c. c.id < n) cs → All (λ c. c.id < n + 1) cs
below_mono n [] h = tt
below_mono n (c ∷ cs) h = (omega (arith, h.0), below_mono n cs h.1)

find?-append :
    (id : ℕ) (cs : List Channel) (c : Channel)
    → find? (has_id id) (cs ++ c ∷ []) ≡ (elim (find? (has_id id) cs) [
      | none ↦ if has_id id c then some c else none
      | some d ↦ some d
    ])
find?-append id [] c = ground arith
find?-append id (x ∷ xs) c = ground (arith, find?-append id xs c)

create_inv :
    (r : ChannelRegistry) (pid1 pid2 : ℕ) (result : Result IpcError ℕ) (r' : ChannelRegistry)
    → create_channel r pid1 pid2 ≡ some (result, r')
    → (result ≡ ok r.next_id)
      × (r' ≡ record {
        channels = r.channels ++ new r.next_id pid1 pid2 ∷ [];
        next_id = r.next_id + 1;
      })
unfolding create_channel
create_inv r pid1 pid2 result r' e = (ground arith, ground arith)

create_channel-some :
    (r : ChannelRegistry) (pid1 pid2 : ℕ)
    → r.next_id + 1 < 2 ^ 64
    → (r' : ChannelRegistry) × (create_channel r pid1 pid2 ≡ some (ok r.next_id, r'))
unfolding create_channel
create_channel-some r pid1 pid2 room = (
  record r { channels = r.channels ++ new r.next_id pid1 pid2 ∷ []; next_id = r.next_id + 1 },
  ground arith,
)

created :
    (r : ChannelRegistry) (pid1 pid2 : ℕ) (result : Result IpcError ℕ) (r' : ChannelRegistry)
    → IsValid r
    → create_channel r pid1 pid2 ≡ some (result, r')
    → IsValid r'
      × (result ≡ ok r.next_id)
      × (get_channel r' r.next_id ≡ some (new r.next_id pid1 pid2))
      × ((id : ℕ) → id ≢ r.next_id → get_channel r' id ≡ get_channel r id)
unfolding get_channel new
created r pid1 pid2 result r' v e =
    let (named, made) = create_inv r pid1 pid2 result r' e in
    let c = new r.next_id pid1 pid2 in
    rw made (
      record {
        distinct =
            Distinct-snoc (λ d. d.id) r.channels c v.distinct (fresh r.next_id r.channels v.below);
        below =
            All-append (λ d. d.id < r.next_id + 1) r.channels (c ∷ [])
              (below_mono r.next_id r.channels v.below) (omega arith, tt);
      },
      named,
      find?-append r.next_id r.channels c
          ∙ ground (arith, fresh_find r.next_id r.channels v.below, ==_refl r.next_id),
      λ id other.
          find?-append id r.channels c
          ∙ ground (arith, Option-cases (find? (has_id id) r.channels)),
    )

-- As long as the id counter does not overflow, a new channel gets the next id, which no other has:
-- it is found under that id, a channel that is found under another id is found there still, and the
-- ids stay distinct and below the next one.
create_channel_lem :
    (r : ChannelRegistry) (pid1 pid2 other : ℕ)
    → IsValid r
    → r.next_id + 1 < 2 ^ 64
    → other ≢ r.next_id
    → (r' : ChannelRegistry) × (create_channel r pid1 pid2 ≡ some (ok r.next_id, r'))
      × IsValid r'
      × (get_channel r' r.next_id ≡ some (new r.next_id pid1 pid2))
      × (get_channel r' other ≡ get_channel r other)
create_channel_lem r pid1 pid2 other v room ne =
    let (r', made) = create_channel-some r pid1 pid2 room in
    let (valid, named, found, kept) = created r pid1 pid2 (ok r.next_id) r' v made in
    (r', made, valid, found, kept other ne)

remove_each_lem : (ks : List ℕ) (cs : List Channel) → remove_each ks cs ≡ without (λ c. c.id) ks cs
unfolding remove_each
remove_each_lem [] cs = sym (without-nil (λ c. c.id) cs)
remove_each_lem (k ∷ ks) cs = remove_each_lem ks _ ∙ without-cons (λ c. c.id) k ks cs

-- While the ids are distinct, the clean-up drops exactly the channels of which the process is an
-- endpoint, although it removes them by their ids.
cleanup_process_channels_lem :
    (r : ChannelRegistry) (pid : ℕ)
    → IsValid r
    → (cleanup_process_channels r pid
        ≡ record r { channels = retain (λ c. not (has_endpoint pid c)) r.channels })
      × IsValid (cleanup_process_channels r pid)
unfolding cleanup_process_channels
cleanup_process_channels_lem r pid v =
    let kept =
      remove_each_lem (ids (retain (has_endpoint pid) r.channels)) r.channels
      ∙ without-retain (λ c. c.id) (has_endpoint pid) r.channels v.distinct in
    (
      ap (λ cs. record r { channels = cs }) kept,
      rw kept (record {
        distinct =
            Distinct-retain (λ c. c.id) (λ c. not (has_endpoint pid c)) r.channels v.distinct;
        below =
            All-retain (λ c. c.id < r.next_id) (λ c. not (has_endpoint pid c)) r.channels v.below;
      }),
    )
