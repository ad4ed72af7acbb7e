-- ===== src/Fastboot/Fetch.antt =====
-- FetchHandler, with its class PartitionFetcher (fastboot/device/commands.cpp).
pub mod Laws
use rpi_fastbootd.Prelude.{
  ℕ, zero, suc, ◌+◌, ◌-◌, ◌*◌, ◌/◌, ◌%◌, ◌^◌, ◌≤◌, ◌<◌, ◌≡◌, refl, sym, ap, subst, ◌∙◌, fun_ext,
  ◌≢◌, ◌↔◌, ◌⊎◌, inl, inr, Bool, true, false, not, ◌&&◌, ◌||◌, Option, none, some, List, [], ◌∷◌,
  ◌++◌, map, append_assoc, append-nil, arith, ltb, leb, ◌==◌, if◌then◌else◌, ltb→lt, le→leb, ==_iff,
  Bool-cases, Option-cases, has_value, u64_mod, u64, if-elim, length, get_elem?, set, take,
  length-append, length-take, length-set, get_elem?-set_self, get_elem?-set_ne, get_elem?-lt-length,
  get_elem?-eq-none, ℕ_discrete,
}
use rpi_fastbootd.Prelude.Text.{
  Text, codes, text_eq, text_eq_sound, text_eq_refl, is_empty, is_digit, decimal, decimal_fuel,
  digits_value, digits_value-decimal, decimal-injective, to_lower, starts_with, contains,
  after_last_slash,
}
use rpi_fastbootd.Prelude.Outcome.{
  Outcome, Outcome-cases, Fault, ok, throw, deref, overflow_error, invalid_argument, out_of_range,
  logic_error, div_by_zero, bad_optional, runtime_error, stack_exhausted, ◌>>=◌, ◌>>◌,
}
use Prim.Native.Nat.{min}
use rpi_fastbootd.Idp.Device.Platform.{Parser}
use rpi_fastbootd.Fastboot.Transport.{
  Transport, Base, FastbootDevice, Result, okay, fail, data_size,
}
use rpi_fastbootd.Fastboot.Response.{write_status}
use rpi_fastbootd.Fastboot.Session.{Handler, counts}
use rpi_fastbootd.Fastboot.Transfer.{answer, get_device_lock_status, hex_digits}
use rpi_fastbootd.Fastboot.Files.{
  Files, PartitionHandle, open_partition, seek_set, at_offset, close_fd, get_block_device_size,
}

-- kMaxFetchSizeDefault
abbrev pub max_fetch_size : ℕ
max_fetch_size = 268435456

-- std::numeric_limits<off64_t>::max
abbrev pub off64_max : ℕ
off64_max = 9223372036854775807

abbrev pub chunk_max : ℕ
chunk_max = 1048576

unfoldable pub strip_zeros : Text → Text
strip_zeros [] = []
strip_zeros (c ∷ s) = if c == b'0' then strip_zeros s else c ∷ s

-- %x
unfoldable pub hex : ℕ → Text
unfolding strip_zeros
hex n = if n == 0 then codes "0" else strip_zeros (hex_digits 16 n)

-- kAllowedPartitions
abbrev pub is_allowed : Text → Bool
is_allowed name =
    text_eq name (codes "vendor_boot")
    || text_eq name (codes "vendor_boot_a")
    || text_eq name (codes "vendor_boot_b")

-- A number that an argument has, or what is wrong with it.
pub data Parsed : Type 0 where
  parsed : ℕ → Parsed
  wrong : Text → Parsed

abbrev pub offset_in : Option ℕ → Parsed
offset_in none = wrong (codes "Invalid offset, must be integer")
offset_in (some n) =
    if ltb off64_max n then wrong (codes "Offset overflows: " ++ hex n) else parsed n

abbrev pub size_in : Option ℕ → Parsed
size_in none = wrong (codes "Invalid size, must be integer")
size_in (some n) = parsed n

module _ (base : Base) where
  -- The offset, of the arguments behind the partition
  unfoldable pub parse_offset : List Text → Parsed
  parse_offset [] = parsed 0
  parse_offset (offset ∷ args) = offset_in (base.parse_uint offset (u64_mod - 1))

  -- The size; everything that is left without one
  unfoldable pub parse_size : List Text → ℕ → Parsed
  parse_size (offset ∷ size ∷ args) maximum = size_in (base.parse_uint size (u64_mod - 1))
  parse_size args maximum = parsed maximum

-- The members of PartitionFetcher that Open sets.
pub record PartitionFetcher : Type 0 where
  pub partition_name : Text
  pub handle : PartitionHandle
  pub partition_size : ℕ
  pub start_offset : ℕ
  pub total_size_to_read : ℕ

abbrev pub new_fetcher : Text → PartitionHandle → ℕ → PartitionFetcher
new_fetcher name handle size = record {
  partition_name = name;
  handle = handle;
  partition_size = size;
  start_offset = 0;
  total_size_to_read = 0;
}

-- Open gives the fetcher, or the status that ends the command.
pub data Opened : Type 0 where
  ready : PartitionFetcher → Opened
  ended : Result → Text → Opened

-- The checks of the size that Open has read.
unfoldable pub check_size : PartitionFetcher → Parsed → Opened
check_size f (wrong msg) = ended fail msg
check_size f (parsed total) =
    if total == 0
    then ended okay (codes "Read 0 bytes")
    else if ltb (f.partition_size - f.start_offset) total
    then ended fail (
        codes "Invalid size to read 0x"
        ++ hex total
        ++ codes ", partition "
        ++ f.partition_name
        ++ codes " has size 0x"
        ++ hex f.partition_size
        ++ codes " and fetching from offset 0x"
        ++ hex f.start_offset)
    else if ltb max_fetch_size total
    then ended fail (
        codes "Cannot fetch 0x"
        ++ hex f.partition_size
        ++ codes " bytes because it exceeds maximum transport size 0x10000000")
    else ready (record f { total_size_to_read = total })

module _ (base : Base) where
  unfoldable pub check_offset : PartitionFetcher → List Text → Parsed → Opened
  unfolding check_size
  check_offset f args (wrong msg) = ended fail msg
  check_offset f args (parsed start) =
      if ltb f.partition_size start
      then ended fail (
          codes "Invalid offset 0x"
          ++ hex start
          ++ codes ", partition "
          ++ f.partition_name
          ++ codes " has size 0x"
          ++ hex f.partition_size)
      else check_size (record f { start_offset = start })
          (parse_size base args (f.partition_size - start))

module _ {World : Type 0} (base : Base) (files : Files World) where
  -- Open from the size of the partition
  unfoldable pub open_sized : Text → PartitionHandle → ℕ → List Text → Opened
  unfolding check_offset
  open_sized name handle size args =
      if size == 0
      then ended okay (codes "Partition " ++ name ++ codes " has size 0")
      else check_offset base (new_fetcher name handle size) args (parse_offset base args)

  unfoldable pub open_named : Text → Option PartitionHandle → List Text → World → Opened
  unfolding open_sized
  open_named name none args w = ended fail (codes "Cannot open " ++ name)
  open_named name (some handle) args w =
      open_sized name handle (get_block_device_size files handle.fd w) args

  -- PartitionFetcher::Open
  unfoldable pub open_fetcher : List Text → World → Opened
  unfolding open_named
  open_fetcher (command ∷ name ∷ args) w =
      if not (is_allowed name)
      then ended fail (codes "Fetch is only allowed on [vendor_boot, vendor_boot_a, vendor_boot_b]")
      else open_named name (open_partition files name w) args w
  open_fetcher args w = ended fail (codes "Missing partition arg")

module _ {P : Parser} {World : Type 0} (t : Transport World) (base : Base)
    (files : Files World) where
  -- HandleData of bytes that are not in the download buffer
  unfoldable pub send_data : Text → FastbootDevice P → World → Bool × FastbootDevice P × World
  send_data bytes fb w =
      let (count, w1) = t.write bytes w in
      if counts count (length bytes)
      then (true, fb, w1)
      else (false, record fb { transport_failed = true }, w1)

  abbrev pub send_read : Option Text × World → FastbootDevice P → Bool × FastbootDevice P × World
  send_read (none, w) fb = (false, fb, w)
  send_read (some bytes, w) fb = send_data bytes fb w

  -- A round of the loop of Fetch
  unfoldable pub send_chunk : ℕ → ℕ → FastbootDevice P → World → Bool × FastbootDevice P × World
  unfolding send_data
  send_chunk fd chunk_size fb w = send_read (files.read_fully fd chunk_size w) fb

  -- The loop, over what remains. There is as much fuel as bytes, and each round sends some.
  unfoldable pub fetch_loop : ℕ → ℕ → ℕ → FastbootDevice P → World → Bool × FastbootDevice P × World
  fetch_loop zero fd remaining fb w = (remaining == 0, fb, w)
  fetch_loop (suc fuel) fd remaining fb w =
      let chunk_size = min chunk_max remaining in
      let (sent, fb1, w1) = send_chunk fd chunk_size fb w in
      let rest = fetch_loop fuel fd (remaining - chunk_size) fb1 w1 in
      if remaining == 0 then (true, fb, w) else if sent then rest else (false, fb1, w1)

  -- PartitionFetcher::Fetch from the loop on
  unfoldable pub finish_fetch :
      PartitionFetcher → FastbootDevice P → World → Outcome Bool × FastbootDevice P × World
  unfolding fetch_loop
  finish_fetch f fb w =
      let (sent, fb1, w1) = fetch_loop f.total_size_to_read f.handle.fd f.total_size_to_read fb w in
      if sent
      then answer t okay
          (codes "Fetched "
            ++ f.partition_name
            ++ codes " (offset=0x"
            ++ hex f.start_offset
            ++ codes ", size=0x"
            ++ hex f.total_size_to_read)
          fb1 w1
      else (ok false, fb1, w1)

  -- PartitionFetcher::Fetch. Open has checked what the CHECK on the offset asks.
  unfoldable pub fetch_from :
      PartitionFetcher → FastbootDevice P → World → Outcome Bool × FastbootDevice P × World
  unfolding finish_fetch
  fetch_from f fb w =
      let (found, w1) = files.lseek f.handle.fd f.start_offset seek_set w in
      let (told, fb2, w2) = write_status t data_size (hex_digits 8 f.total_size_to_read) fb w1 in
      if not (at_offset found f.start_offset)
      then answer t fail
          (codes "On partition "
            ++ f.partition_name
            ++ codes ", unable to lseek(0x"
            ++ hex f.start_offset
            ++ codes ": "
            ++ files.strerror (files.errno w1))
          fb w1
      else if told
      then finish_fetch f fb2 w2
      else (ok false, fb2, w2)

  -- The end of the fetcher closes its handle.
  abbrev pub close_after :
      PartitionHandle
      → Outcome Bool × FastbootDevice P × World
      → Outcome Bool × FastbootDevice P × World
  close_after handle (r, fb, w) = (r, fb, close_fd files handle.fd w)

  unfoldable pub after_open : Opened → Handler P World
  unfolding fetch_from
  after_open (ended result msg) args fb w = answer t result msg fb w
  after_open (ready f) args fb w = close_after f.handle (fetch_from f fb w)

  -- FetchHandler. The flag is kEnableFetch: true in a build with FB_ENABLE_FETCH, which Android.bp
  -- defines, and false in one without, as CMake builds it.
  unfoldable pub fetch_handler : Bool → Handler P World
  unfolding after_open
  fetch_handler enable args fb w =
      if not enable
      then answer t fail (codes "Fetch is not allowed on user build") fb w
      else if get_device_lock_status
      then answer t fail (codes "Fetch is not allowed on locked devices") fb w
      else after_open (open_fetcher base files args w) args fb w
