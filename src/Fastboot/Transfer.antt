-- ===== src/Fastboot/Transfer.antt =====
-- DownloadHandler and UploadHandler (fastboot/device/commands.cpp), and the tables of commands
-- (fastboot/device/fastboot_device.cpp).
pub mod Laws
pub mod DataPlane
use rpi_fastbootd.Prelude.{
  ℕ, zero, suc, ◌+◌, ◌-◌, ◌*◌, ◌/◌, ◌%◌, ◌^◌, ◌≤◌, ◌<◌, ◌≡◌, refl, sym, ap, subst, ◌∙◌, fun_ext,
  ◌≢◌, ◌↔◌, ◌⊎◌, inl, inr, Bool, true, false, not, ◌&&◌, ◌||◌, Option, none, some, List, [], ◌∷◌,
  ◌++◌, map, append_assoc, append-nil, arith, ltb, leb, ◌==◌, if◌then◌else◌, ltb→lt, le→leb, ==_iff,
  Bool-cases, Option-cases, has_value, u64_mod, u64, if-elim, length, get_elem?, set, take,
  length-append, length-take, length-set, get_elem?-set_self, get_elem?-set_ne, get_elem?-lt-length,
  get_elem?-eq-none, ℕ_discrete,
}
use rpi_fastbootd.Prelude.Text.{
  Text, codes, text_eq, text_eq_sound, text_eq_refl, is_empty, is_digit, decimal, decimal_fuel,
  digits_value, digits_value-decimal, decimal-injective, to_lower, starts_with, contains,
  after_last_slash,
}
use rpi_fastbootd.Prelude.Outcome.{
  Outcome, Outcome-cases, Fault, ok, throw, deref, overflow_error, invalid_argument, out_of_range,
  logic_error, div_by_zero, bad_optional, runtime_error, stack_exhausted, ◌>>=◌, ◌>>◌,
}
use rpi_fastbootd.Idp.Device.Platform.{Parser}
use rpi_fastbootd.Fastboot.Transport.{
  Transport, Base, FastbootDevice, Result, okay, fail, info, data_size,
}
use rpi_fastbootd.Fastboot.Response.{write_status}
use rpi_fastbootd.Fastboot.Session.{Handler, handle_data}

-- kMaxDownloadSizeDefault
abbrev pub max_download_size : ℕ
max_download_size = 268435456

-- GetDeviceLockStatus
unfoldable pub get_device_lock_status : Bool
get_device_lock_status = false

-- std::vector<char>::resize
unfoldable pub resize : ℕ → Text → Text
resize zero s = []
resize (suc n) [] = 0 ∷ resize n []
resize (suc n) (c ∷ s) = c ∷ resize n s

-- The last digits of a number in base sixteen, as printf writes it with %08x.
unfoldable pub hex_digits : ℕ → ℕ → Text
hex_digits zero n = []
hex_digits (suc k) n =
    hex_digits k (n / 16) ++ (if ltb (n % 16) 10 then 48 + n % 16 else 87 + n % 16) ∷ []

module _ {P : Parser} {World : Type 0} (t : Transport World) where
  -- A status as the result of a handler that does not throw.
  abbrev pub answer :
      Result → Text → FastbootDevice P → World → Outcome Bool × FastbootDevice P × World
  answer result message fb w =
      let (sent, fb', w1) = write_status t result message fb w in (ok sent, fb', w1)

  -- DownloadHandler for the size that was parsed, if one was.
  unfoldable pub receive :
      Option ℕ → FastbootDevice P → World → Outcome Bool × FastbootDevice P × World
  receive none fb w = answer fail (codes "Invalid size") fb w
  receive (some zero) fb w = answer fail (codes "Invalid size (0)") fb w
  receive (some (suc n)) fb w =
      let fb' : FastbootDevice P = record fb { download_data = resize (suc n) fb.download_data } in
      let (sent, fb1, w1) = write_status t data_size (hex_digits 8 (suc n)) fb' w in
      let (received, fb2, w2) = handle_data t true fb1 w1 in
      if not sent
      then (ok false, fb1, w1)
      else if received
      then answer okay [] fb2 w2
      else answer fail (codes "Couldn't download data") fb2 w2

  unfoldable pub download_handler : Base → Handler P World
  unfolding receive
  download_handler base [] fb w = answer fail (codes "size argument unspecified") fb w
  download_handler base (name ∷ []) fb w = answer fail (codes "size argument unspecified") fb w
  download_handler base (name ∷ size ∷ args) fb w =
      if get_device_lock_status
      then answer fail (codes "Download is not allowed on locked devices") fb w
      else if not (length size == 8)
      then answer fail (codes "Invalid size (length of size != 8)") fb w
      else receive (base.parse_uint (codes "0x" ++ size) max_download_size) fb w

  -- GetVarHandlerDataPlane; GetVersion and GetMaxDownloadSize never fail.
  unfoldable pub get_var_data_plane : Handler P World
  get_var_data_plane (command ∷ name ∷ args) fb w =
      if text_eq name (codes "version")
      then answer okay (codes "0.4") fb w
      else if text_eq name (codes "max-download-size")
      then answer okay (codes "0x10000000") fb w
      else answer fail (codes "data-plane connection: getvar " ++ name ++ codes " not permitted") fb
          w
  get_var_data_plane args fb w =
      answer fail (codes "data-plane connection: getvar requires a variable name") fb w

  unfoldable pub upload_handler : Handler P World
  upload_handler args fb w =
      let size = length fb.download_data in
      let (sent, fb1, w1) = write_status t data_size (hex_digits 8 size) fb w in
      let (sent_data, fb2, w2) = handle_data t false fb1 w1 in
      if size == 0
      then answer fail (codes "Invalid size (0)") fb w
      else if not sent
      then (ok false, fb1, w1)
      else if sent_data
      then answer okay [] (record fb2 { download_data = [] }) w2
      else answer fail (codes "Couldn't upload data") fb2 w2

-- The other handlers of the tables.
pub record Handlers (P : Parser) (World : Type 0) : Type 0 where
  pub set_active : Handler P World
  pub get_var : Handler P World
  pub shut_down : Handler P World
  pub reboot : Handler P World
  pub reboot_bootloader : Handler P World
  pub erase : Handler P World
  pub flash : Handler P World
  pub oem_cmd : Handler P World
  pub fetch : Handler P World

module _ {P : Parser} {World : Type 0} (t : Transport World) (base : Base)
    (h : Handlers P World) where
  -- BuildCommandMap
  unfoldable pub command_map : List (Text × Handler P World)
  command_map =
      (codes "set_active", h.set_active)
      ∷ (codes "download", download_handler t base)
      ∷ (codes "stage", download_handler t base)
      ∷ (codes "upload", upload_handler t)
      ∷ (codes "getvar", h.get_var)
      ∷ (codes "shutdown", h.shut_down)
      ∷ (codes "reboot", h.reboot)
      ∷ (codes "reboot-bootloader", h.reboot_bootloader)
      ∷ (codes "erase", h.erase)
      ∷ (codes "flash", h.flash)
      ∷ (codes "oem", h.oem_cmd)
      ∷ (codes "fetch", h.fetch)
      ∷ []

  -- BuildDataPlaneCommandMap
  unfoldable pub data_plane_command_map : List (Text × Handler P World)
  data_plane_command_map =
      (codes "download", download_handler t base)
      ∷ (codes "flash", h.flash)
      ∷ (codes "getvar", get_var_data_plane t)
      ∷ []
