-- ===== src/Fastboot/Transfer/DataPlane.antt =====
-- What a session over the restricted table of commands can reach.
use rpi_fastbootd.Prelude.{ℕ, ◌≡◌, Bool, Option, none, some, List, [], ◌∷◌}
use rpi_fastbootd.Prelude.Text.{Text}
use rpi_fastbootd.Prelude.Outcome.{Outcome}
use rpi_fastbootd.Idp.Device.Platform.{Parser, Device}
use rpi_fastbootd.Idp.Device.Lifecycle.{Cookie}
use rpi_fastbootd.Fastboot.Transport.{Transport, Base, FastbootDevice}
use rpi_fastbootd.Fastboot.Session.{Handler}
use rpi_fastbootd.Parted.Fdisk.{Kernel}
use rpi_fastbootd.Fastboot.Files.{Files}
use rpi_fastbootd.Fastboot.Flash.{Sparse}
use rpi_fastbootd.Fastboot.Flash.Handler.{flash_handler}

-- A session that holds this idp device and this cookie.
abbrev pub Holds : {P : Parser} → Option (Device P) → Option Cookie → FastbootDevice P → Type 0
Holds idp cookie fb = (fb.idp ≡ idp) × (fb.idpcookie ≡ cookie)

abbrev pub ResultHolds :
    {R World : Type 0} {P : Parser}
    → Option (Device P)
    → Option Cookie
    → R × FastbootDevice P × World
    → Type 0
ResultHolds idp cookie (r, fb, w) = Holds idp cookie fb

-- A handler that leaves the idp device of the session alone.
abbrev pub KeepsIdp : {P : Parser} {World : Type 0} → Handler P World → Type 0
KeepsIdp {P} {World} handler =
    (args : List Text) (fb : FastbootDevice P) (w : World)
    → ResultHolds fb.idp fb.idpcookie (handler args fb w)

-- Every handler of a table.
abbrev pub AllHandlers : {H : Type 0} → (H → Type 0) → List (Text × H) → Type 0
AllHandlers Q [] = Unit
AllHandlers Q ((key, h) ∷ table) = Q h × AllHandlers Q table

module _ {P : Parser} {World : Type 0} (t : Transport World) (base : Base) (files : Files World)
    (sparse : Sparse World) (k : Kernel World) where
  abbrev EndsHolding : FastbootDevice P → Option (Outcome Bool × FastbootDevice P × World) → Type 0
  EndsHolding fb none = Unit
  EndsHolding fb (some r) = ResultHolds fb.idp fb.idpcookie r

  -- The handler that FlashHandler is where it ends.
  abbrev pub IsFlashHandler : Handler P World → Type 0
  IsFlashHandler handler =
      (args : List Text) (fb : FastbootDevice P) (w : World)
      → (fuel : ℕ) × (flash_handler t files sparse k fuel args fb w ≡ some (handler args fb w))
