-- ===== src/Fastboot/Idp/Reachable.antt =====
-- The states that a session can come to, whatever the order of its commands.
use rpi_fastbootd.Prelude.{ℕ, ◌≡◌, Bool, false, none, List}
use rpi_fastbootd.Prelude.Text.{Text}
use rpi_fastbootd.Prelude.Outcome.{Fault, ok, throw}
use rpi_fastbootd.Idp.Storage.{Image}
use rpi_fastbootd.Idp.Device.Platform.{Parser, Platform, Device}
use rpi_fastbootd.Fastboot.Transport.{Transport, FastbootDevice}
use rpi_fastbootd.Fastboot.Session.{Handler}
use rpi_fastbootd.Fastboot.Transfer.DataPlane.{KeepsIdp}
use rpi_fastbootd.Fastboot.Idp.{Handled, IdpCommand, run_idp, idp_getblk}
use rpi_fastbootd.Fastboot.Idp.Open.{
  SessionIsOpen, HoldsOpen, Returns, run_idp-HoldsOpen, idp_getblk-Returns,
}

module _ {P : Parser} {World : Type 0} (p : Platform World) (t : Transport World)
    (what : Fault → Text) (random : World → ℕ × World) (image : Image) (dcap isize : ℕ) where
  -- An idp command that returns, any other handler, or what ExecuteCommands does before each.
  pub data Step (fb : FastbootDevice P) (w : World) : FastbootDevice P → World → Type 0 where
    command :
        (c : IdpCommand) (sent : Bool)
        → (run_idp p t what random image dcap isize c fb w).0 ≡ ok sent
        → Step fb w
            (run_idp p t what random image dcap isize c fb w).1
            (run_idp p t what random image dcap isize c fb w).2
    other :
        (handler : Handler P World) (args : List Text)
        → KeepsIdp handler
        → Step fb w (handler args fb w).1 (handler args fb w).2
    next : Step fb w (record fb { replied = false }) w

  -- A session starts with no idp device.
  pub data Reach : FastbootDevice P → World → Type 0 where
    start : (fb : FastbootDevice P) (w : World) → fb.idp ≡ none → Reach fb w
    later :
        {fb : FastbootDevice P} {w : World} {fb' : FastbootDevice P} {w' : World}
        → Reach fb w
        → Step fb w fb' w'
        → Reach fb' w'

  open-ok :
      (r : Handled P World) (sent : Bool)
      → HoldsOpen p r
      → r.0 ≡ ok sent
      → SessionIsOpen p r.1.idp r.1.idpcookie
  open-ok (ok b, fb, w) sent h e = h
  open-ok (throw x, fb, w) sent h e = absurd (cc e)

  Step-SessionIsOpen :
      {fb : FastbootDevice P} {w : World} {fb' : FastbootDevice P} {w' : World}
      → Step fb w fb' w'
      → SessionIsOpen p fb.idp fb.idpcookie
      → SessionIsOpen p fb'.idp fb'.idpcookie
  Step-SessionIsOpen {fb} {w = w} (command c sent e) h =
      open-ok _ sent (run_idp-HoldsOpen p t what random image dcap isize c fb w h) e
  Step-SessionIsOpen {fb} {w = w} (other handler args keeps) h =
      let (same_idp, same_cookie) = keeps args fb w in rw (same_idp, same_cookie) h
  Step-SessionIsOpen next h = h

  Reach-SessionIsOpen :
      {fb : FastbootDevice P} {w : World} → Reach fb w → SessionIsOpen p fb.idp fb.idpcookie
  Reach-SessionIsOpen (start fb w none_yet) = rw none_yet tt
  Reach-SessionIsOpen (later r s) = Step-SessionIsOpen s (Reach-SessionIsOpen r)

  -- In every state that a session comes to through idp commands that return and handlers that
  -- leave its device alone, in any order, oem idpgetblk returns: it raises nothing.
  pub Reach-Returns :
      (fb : FastbootDevice P) (w : World) → Reach fb w → Returns (idp_getblk p t what fb w)
  Reach-Returns fb w r = idp_getblk-Returns p t what fb w (Reach-SessionIsOpen r)
