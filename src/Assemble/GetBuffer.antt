-- ===== src/Assemble/GetBuffer.antt =====
-- `getBuffer`: one call of `getPacketizedBuffer` on the caller's buffer, or calls on a block that
-- grows. The flag `useRecvfrom`, which is true here, is a parameter. The socket is created and bound with no value that is used later.
mod Events
pub mod Blocks
pub mod Complete
mod Errors
pub mod Swallows
mod Fuel
pub mod Tests
use mathlib.Core.Option
use ersap_ejfat.Base.{
  ℕ, zero, suc, ◌+◌, ◌-◌, ◌*◌, ◌%◌, ◌^◌, Bool, true, false, not, Option, none, some, List, [], ◌∷◌,
  ◌++◌, ltb, leb, if◌then◌else◌, length, take, drop, ℤ, pos, negsuc,
}
use ersap_ejfat.Base.Memory.{Run, ok, fault, ◌>>=◌}
use ersap_ejfat.Assemble.{code, buf_too_small, out_of_order, out_of_mem, bad_arg, Event}
use ersap_ejfat.Assemble.Store.{Store, free_map}
use ersap_ejfat.Assemble.Loop.{Shared, Outcome, returned, waiting, get_packetized_buffer}

-- `malloc` of so many bytes: the block with what stands in it, or null.
abbrev pub Malloc : Type 0
Malloc = ℕ → Option (List ℕ)

-- The value of `getBuffer`, and `*userBuf` and `*userBufLen` where it sets them.
pub record Returned : Type 0 where
  pub value : ℤ
  pub user_buf : Option (List ℕ)
  pub user_buf_len : Option ℕ

pub data Result : Type 0 where
  done : Returned → Result
  blocked : Result

abbrev pub only : ℤ → Returned
only value = record { value = value; user_buf = none; user_buf_len = none }

-- Its locals before the first call. `last` is not set there: its value is a parameter.
abbrev pub fresh : List ℕ → Bool → Shared
fresh mem last = record {
  mem = mem;
  last = last;
  tick = 0;
  exp_sequence = 0;
  bytes_per_packet = 0;
  packet_count = 0;
  stored = [];
}

abbrev pub free_then : Store → Returned → Run Result
free_then m r = free_map m >>= λ _. ok (done r)

-- The branch `noCopy`. Its test `totalBytes < 0` looks at a variable that is still 0.
unfoldable pub no_copy : Bool → List ℕ → ℕ → Bool → List Event → Run Result
no_copy u mem len last events = get_packetized_buffer u true len (fresh mem last) events >>= λ o.
    elim o [
      | waiting _ ↦ ok blocked
      | returned n_bytes out rest ↦
          if not out.last
          then free_then out.stored (only (code buf_too_small))
          else free_then out.stored
              (record { value = pos 0; user_buf = some out.mem; user_buf_len = none })
    ]

-- The variables of the other branch.
pub record Growing : Type 0 where
  pub data_buf : List ℕ
  pub data_buf_len : ℕ
  pub remaining_bytes : ℕ
  pub total_bytes : ℕ
  pub first_read : Bool
  pub shared : Shared

-- uint32_t a - b
abbrev pub sub_32 : ℕ → ℕ → ℕ
sub_32 a b = if leb b a then a - b else (a + 2 ^ 32 - b) % 2 ^ 32

-- What a call gets: the block from `getDataFrom` on.
abbrev pub rest_of : Growing → Shared
rest_of g = record (g.shared) { mem = drop g.total_bytes g.data_buf }

-- Behind a call that returned `n` bytes.
abbrev pub after_call : Growing → ℕ → Shared → Growing
after_call g n out = record {
  data_buf = take g.total_bytes g.data_buf ++ out.mem;
  data_buf_len = g.data_buf_len;
  remaining_bytes = sub_32 g.remaining_bytes n;
  total_bytes = g.total_bytes + n;
  first_read = false;
  shared = out;
}

-- `realloc`: the block begins with the old one, as far as it goes.
abbrev pub realloc : Malloc → List ℕ → ℕ → Option (List ℕ)
realloc malloc block n =
    Option.map (λ fresh. take n (block ++ drop (length block) fresh)) (malloc n)

-- uint32_t 2 * n
abbrev pub double_32 : ℕ → ℕ
double_32 n = 2 * n % 2 ^ 32

-- Twice the block, if another packet may not fit: `none` is a null of `realloc`.
unfoldable pub grow : Malloc → Growing → Option Growing
grow malloc g =
    if ltb g.remaining_bytes g.shared.bytes_per_packet
    then Option.map
        (λ block. record g {
          data_buf = block;
          data_buf_len = double_32 g.data_buf_len;
          remaining_bytes = sub_32 (double_32 g.data_buf_len) g.total_bytes;
        })
        (realloc malloc g.data_buf (double_32 g.data_buf_len))
    else some g

-- How a turn of the loop ends.
pub data Turn : Type 0 where
  next : Growing → List Event → Turn
  leave : Result → Turn

-- Behind a call that returned data; the Boolean is `last`.
unfoldable pub after_data : Malloc → Bool → Growing → List Event → Run Turn
after_data malloc true g rest =
    free_then g.shared.stored
      (record { value = pos 0; user_buf = some g.data_buf; user_buf_len = some g.total_bytes })
    >>= λ r. ok (leave r)
after_data malloc false g rest = elim (grow malloc g) [
  | none ↦ free_then g.shared.stored (only (code out_of_mem)) >>= λ r. ok (leave r)
  | some h ↦ ok (next h rest)
]

-- After an error `getBuffer` returns `totalBytes`.
unfoldable pub after_outcome : Malloc → Growing → Outcome → Run Turn
after_outcome malloc g (waiting _) = ok (leave blocked)
after_outcome malloc g (returned (negsuc k) out rest) =
    free_then out.stored (only (pos g.total_bytes)) >>= λ r. ok (leave r)
after_outcome malloc g (returned (pos n) out rest) =
    after_data malloc out.last (after_call g n out) rest

-- Every turn takes at least one event, so there are at most as many turns.
unfoldable pub copy_loop : Bool → Malloc → ℕ → Growing → List Event → Run Result
copy_loop u malloc zero g events = ok blocked
copy_loop u malloc (suc fuel) g events =
    get_packetized_buffer u g.first_read g.remaining_bytes (rest_of g) events
    >>= after_outcome malloc g
    >>= λ t. elim t [ next h rest ↦ copy_loop u malloc fuel h rest | leave r ↦ ok r ]

abbrev pub first_block : ℕ
first_block = 100000

unfoldable pub copy : Bool → Malloc → Bool → List Event → Run Result
copy u malloc last events = elim (malloc first_block) [
  | none ↦ ok (done (only (code out_of_order)))
  | some block ↦
      copy_loop u malloc (suc (length events))
        (record {
          data_buf = block;
          data_buf_len = first_block;
          remaining_bytes = first_block;
          total_bytes = 0;
          first_read = true;
          shared = fresh [] last;
        })
        events
]

-- `userBuf` is null, points to null, or points to a block of `*userBufLen` bytes.
pub data UserBuf : Type 0 where
  null : UserBuf
  points_to : Option (List ℕ) → UserBuf

unfoldable pub with_user_buf : Bool → Option (List ℕ) → ℕ → Bool → List Event → Run Result
with_user_buf u none len last events = ok (done (only (code bad_arg)))
with_user_buf u (some mem) len last events = no_copy u mem len last events

-- `none` is a null pointer `userBufLen`.
unfoldable pub get_buffer :
    Bool → Malloc → Bool → UserBuf → Option ℕ → Bool → List Event → Run Result
get_buffer u malloc last null user_buf_len is_no_copy events = ok (done (only (code bad_arg)))
get_buffer u malloc last (points_to p) none is_no_copy events = ok (done (only (code bad_arg)))
get_buffer u malloc last (points_to p) (some len) is_no_copy events =
    if is_no_copy then with_user_buf u p len last events else copy u malloc last events
