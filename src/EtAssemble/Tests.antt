-- ===== src/EtAssemble/Tests.antt =====
-- `getBuffers` on one tick and two sources.
use mathlib.Core.Option.{some-injective}
use ersap_ejfat.Base.{
  ℕ, zero, suc, ◌==◌, ◌≡◌, ◌≤◌, ◌⊎◌, inl, refl, subst, true, false, none, some, List, [], ◌∷◌,
  replicate, length, get_elem?, if◌then◌else◌, pos, arith,
}
use ersap_ejfat.Base.Memory.{ok, fault, use_after_free, write, slice}
use ersap_ejfat.Wire.Bytes.{
  store, load, bswap_16, bswap_32, htons, htonl, htonll, ntohs, ntohl, ntohll,
}
use ersap_ejfat.Wire.{set_re_metadata, parse_re_header}
use ersap_ejfat.Packetize.{Settings}
use ersap_ejfat.Assemble.{received}
use ersap_ejfat.Assemble.Message.{Fits, re_packet}
use ersap_ejfat.LastBits.{contains, all_last_bits_received, check_tick, erase_tick}
use ersap_ejfat.EtAssemble.Maps.{Entry, Held, Tables, set_end, hold, take_held}
use ersap_ejfat.EtAssemble.Keys.{OneTick}
use ersap_ejfat.EtAssemble.Packets.{Arrives, arrived, Empty}
use ersap_ejfat.EtAssemble.Safety.{
  AllArrive, AllHanded, HandedPart, Whole, get_buffers-AllHanded, get_buffers-Whole,
}
use ersap_ejfat.EtAssemble.InOrder.Pending.{Complete}
use ersap_ejfat.EtAssemble.InOrder.Delivers.{numbers_sent, get_buffers-Delivers}
use ersap_ejfat.EtAssemble.InOrder.Whole.{
  InOrder, over, in_turn, InOrder-AllArrive, get_buffers-InOrder,
}
use ersap_ejfat.EtAssemble.Erased.{undefined, step_use_after_free}
use ersap_ejfat.EtAssemble.Inner.{write_data, report, after_write, drain}
use ersap_ejfat.EtAssemble.{
  waits, Event, Ended, store_early, by_order, check_first, first_of_tick, place, step, run,
  with_ids, get_buffers,
}

abbrev source : ℕ → Settings
source id = record { tick = 7; protocol = 1; version = 1; data_id = id; last_buffer = true }

-- Source 1 has three chunks, source 2 has one.
abbrev messages : ℕ → ℕ → List (List ℕ)
messages t id =
    if id == 1
    then (10 ∷ 11 ∷ []) ∷ (12 ∷ 13 ∷ []) ∷ (14 ∷ []) ∷ []
    else if id == 2
    then (20 ∷ []) ∷ []
    else []

abbrev empty_entry : Entry
empty_entry id = record { block = replicate 9984 0; written = 0 }

abbrev packet_of : ℕ → ℕ → List ℕ → Event
packet_of id k chunk = record {
  datagram = received (re_packet (source id) (length (messages 7 id)) k chunk) [] 0;
  fresh = some empty_entry;
  has_buf = true;
}

abbrev in_disorder : List Event
in_disorder =
    packet_of 1 0 (10 ∷ 11 ∷ [])
    ∷ packet_of 1 2 (14 ∷ [])
    ∷ packet_of 2 0 (20 ∷ [])
    ∷ packet_of 1 1 (12 ∷ 13 ∷ [])
    ∷ []

abbrev two_ids : List ℕ
two_ids = 1 ∷ 2 ∷ []

fits_any : (id : ℕ) → id ≤ 2 → (xs : List (List ℕ)) → length xs ≤ 3 → Fits (source id) xs
fits_any id h xs few = record {
  tick_fits = omega arith;
  data_id_fits = omega (arith, h);
  count_fits = omega (arith, few);
}

length-zeros : (n : ℕ) → length {A = ℕ} (replicate n 0) ≡ n
length-zeros zero = refl
length-zeros (suc n) = let h = length-zeros n in omega arith

is_Empty : Empty 9984 (some empty_entry)
is_Empty e q i =
    subst (λ (f : Entry). ((f i).written ≡ 0) × (length (f i).block ≡ 9984))
      (some-injective empty_entry e q) (refl, length-zeros 9984)

abbrev TwoSources : ℕ → ℕ → Type 0
TwoSources t id = OneTick 7 two_ids t id

short_message : (id : ℕ) → length (messages 7 id) ≤ 3
short_message id = ground arith

fit : (id : ℕ) → id ≤ 2 → Fits (source id) (messages 7 id)
fit id few = fits_any id few (messages 7 id) (short_message id)

came :
    (id k : ℕ) (chunk : List ℕ)
    → contains id two_ids ≡ true
    → get_elem? (messages 7 id) k ≡ some chunk
    → length chunk ≤ 9984
    → id ≤ 2
    → Arrives 9984 messages TwoSources (packet_of id k chunk)
came id k chunk known there small few =
    arrived (source id) k chunk [] 0 (some empty_entry) true (fit id few) (refl, known) there small
      is_Empty

all_arrive : AllArrive 9984 messages TwoSources in_disorder
all_arrive = (
  came 1 0 (10 ∷ 11 ∷ []) refl refl (omega arith) (omega arith),
  (
    came 1 2 (14 ∷ []) refl refl (omega arith) (omega arith),
    (
      came 2 0 (20 ∷ []) refl refl (omega arith) (omega arith),
      (came 1 1 (12 ∷ 13 ∷ []) refl refl (omega arith) (omega arith), tt),
    ),
  ),
)

-- Undefined behaviour for the stored packet; a whole event if its block is still there.
reads_freed : get_buffers undefined 9984 (pos 2) (some two_ids) in_disorder ≡ fault use_after_free
unfolding get_buffers with_ids run step place first_of_tick check_first by_order store_early drain
    after_write report write_data set_end hold take_held all_last_bits_received check_tick
    erase_tick set_re_metadata parse_re_header htons htonl htonll ntohs ntohl ntohll bswap_16
    bswap_32 store load write slice
reads_freed = refl

get_buffers-AllHanded_example :
    (get_buffers undefined 9984 (pos 2) (some two_ids) in_disorder ≡ fault use_after_free)
    ⊎ ((out : List (ℕ × Entry) × Ended) × (get_buffers undefined 9984
            (pos 2)
            (some two_ids)
            in_disorder
          ≡ ok out)
        × AllHanded (λ tick entry. HandedPart 9984 messages TwoSources tick entry) out.0)
get_buffers-AllHanded_example =
    get_buffers-AllHanded undefined 9984 messages TwoSources (pos 2) (some two_ids) in_disorder
      (λ bytes. inl refl) (omega arith) (omega arith) all_arrive

abbrev begun : Entry
begun id = record { block = 10 ∷ 11 ∷ replicate 14 0; written = 2 }

abbrev early : Held
early = record { sequence = 2; data_id = 1; tick = 7; bytes = 14 ∷ []; last = true; first = false }

abbrev with_early : Tables
with_early = record {
  buffers = λ tick. if tick == 7 then some begun else none;
  held = early ∷ [];
  bytes_per_packet = λ id. 2;
  end_condition = [];
  exp_sequence = λ tick id. 1;
}

stored : take_held 2 1 7 (early ∷ []) ≡ some (early, [])
unfolding take_held
stored = refl

step_use_after_free_example :
    step undefined 16 two_ids with_early (packet_of 1 1 (12 ∷ 13 ∷ [])) ≡ fault use_after_free
step_use_after_free_example =
    step_use_after_free 16 two_ids with_early (source 1) (messages 7 1) 1 (12 ∷ 13 ∷ []) [] 0
      (some empty_entry) begun (early, []) (fits_any 1 (omega arith) (messages 7 1) (omega arith))
      (omega arith) refl (omega arith) refl refl stored refl (omega arith)

-- The packets of both sources in their order.
abbrev in_turns : List Event
in_turns =
    packet_of 1 0 (10 ∷ 11 ∷ [])
    ∷ packet_of 2 0 (20 ∷ [])
    ∷ packet_of 1 1 (12 ∷ 13 ∷ [])
    ∷ packet_of 1 2 (14 ∷ [])
    ∷ []

abbrev from_start : ℕ → ℕ → ℕ
from_start tick id = 0

abbrev in_turns-InOrder : InOrder 9984 messages TwoSources from_start in_turns
in_turns-InOrder =
    in_turn from_start (source 1) (10 ∷ 11 ∷ []) [] 0 empty_entry _ (fit 1 (omega arith))
      (refl, refl) refl (omega arith) is_Empty (omega arith)
      (in_turn _ (source 2) (20 ∷ []) [] 0 empty_entry _ (fit 2 (omega arith)) (refl, refl) refl
        (omega arith) is_Empty (omega arith)
        (in_turn _ (source 1) (12 ∷ 13 ∷ []) [] 0 empty_entry _ (fit 1 (omega arith)) (refl, refl)
          refl (omega arith) is_Empty (omega arith)
          (in_turn _ (source 1) (14 ∷ []) [] 0 empty_entry _ (fit 1 (omega arith)) (refl, refl) refl
            (omega arith) is_Empty (omega arith) (over _))))

get_buffers-Whole_example :
    (get_buffers undefined 9984 (pos 2) (some two_ids) in_turns ≡ fault use_after_free)
    ⊎ ((out : List (ℕ × Entry) × Ended) × (get_buffers undefined 9984
            (pos 2)
            (some two_ids)
            in_turns
          ≡ ok out)
        × AllHanded (Whole messages 7 two_ids) out.0)
get_buffers-Whole_example =
    get_buffers-Whole undefined 9984 messages 7 (pos 2) two_ids in_turns (λ bytes. inl refl)
      (omega arith) (omega arith)
      (InOrder-AllArrive 9984 messages TwoSources from_start in_turns in_turns-InOrder)

get_buffers-InOrder_example :
    (log : List (ℕ × Entry)) × (get_buffers undefined 9984 (pos 2) (some two_ids) in_turns
      ≡ ok (log, waits))
    × AllHanded (λ tick entry. HandedPart 9984 messages TwoSources tick entry) log
get_buffers-InOrder_example =
    get_buffers-InOrder 9984 messages TwoSources 1 two_ids in_turns (omega arith) (omega arith)
      in_turns-InOrder

all_sent :
    Complete 7 two_ids messages
      (numbers_sent 9984 messages TwoSources from_start in_turns in_turns-InOrder)
all_sent zero c = absurd (cc)
all_sent (suc zero) c = refl
all_sent (suc (suc zero)) c = refl
all_sent (suc (suc (suc id))) c = absurd (ground arith)

some_chunks : (id : ℕ) → contains id two_ids ≡ true → 1 ≤ length (messages 7 id)
some_chunks zero c = absurd (cc)
some_chunks (suc zero) c = omega arith
some_chunks (suc (suc zero)) c = omega arith
some_chunks (suc (suc (suc id))) c = absurd (ground arith)

get_buffers-Delivers_example :
    (entry : ℕ × Entry) × (get_buffers undefined 9984 (pos 2) (some two_ids) in_turns
      ≡ ok (entry ∷ [], waits))
    × Whole messages 7 two_ids entry.0 entry.1
get_buffers-Delivers_example =
    get_buffers-Delivers 9984 messages 7 1 2 two_ids in_turns (omega arith) (omega arith) refl refl
      some_chunks in_turns-InOrder all_sent
