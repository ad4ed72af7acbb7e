-- ===== src/Idp/Parser/State.antt =====
-- class IDPparser (rpiidp/include/idpparser.h): its state, and how its methods change it, return
-- false with an error, or throw.
use rpi_fastbootd.Prelude.{Bool, true, false, Option, none, some, List, ◌++◌}
use rpi_fastbootd.Prelude.Text.{Text}
use rpi_fastbootd.Prelude.Outcome.{Outcome, ok, throw}
use rpi_fastbootd.Idp.Storage.{Image}
use rpi_fastbootd.Idp.Partition.{IdpPartition}
use rpi_fastbootd.Idp.Parser.Json.{Json, Checked, got, refused}
use rpi_fastbootd.Idp.Parser.Version.{IdpVersion}
use rpi_fastbootd.Idp.Navigator.{NavState}

pub record IdpParser (J : Json) : Type 0 where
  pub root : Json.Value J
  pub jvalid : Bool
  pub ig_version : IdpVersion
  pub pmap_version : IdpVersion
  pub image : Image
  pub pnav : Option (NavState J)
  pub partitions : List IdpPartition

-- A method that returns true, or false with the error that it sets, or throws.
abbrev pub P : Json → Type 0 → Type 0
P J A = IdpParser J → Outcome (Checked A) × IdpParser J

abbrev pub and_then :
    {J : Json} {A B : Type 0}
    → Outcome (Checked A) × IdpParser J
    → (A → P J B)
    → Outcome (Checked B) × IdpParser J
and_then (throw e, s) f = (throw e, s)
and_then (ok (refused why), s) f = (ok (refused why), s)
and_then (ok (got a), s) f = f a s

infixl 5 ◌>>=◌ ◌>>◌
unfoldable pub ◌>>=◌ : {J : Json} {A B : Type 0} → P J A → (A → P J B) → P J B
◌>>=◌ m f s = and_then (m s) f

abbrev pub ◌>>◌ : {J : Json} {B : Type 0} → P J (Unit {0}) → P J B → P J B
m >> k = m >>= λ _. k

abbrev pub checked : {A : Type 0} → Outcome A → Outcome (Checked A)
checked (throw e) = throw e
checked (ok a) = ok (got a)

module _ {J : Json} where
  unfoldable pub pure : {A : Type 0} → A → P J A
  pure a s = (ok (got a), s)

  unfoldable pub refuse : {A : Type 0} → Text → P J A
  refuse why s = (ok (refused why), s)

  -- An access that throws, or gives a value.
  unfoldable pub access : {A : Type 0} → Outcome A → P J A
  access r s = (checked r, s)

  -- A check: what it has read, or its error.
  unfoldable pub check : {A : Type 0} → Outcome (Checked A) → P J A
  check r s = (r, s)

  abbrev pub prefixed :
      {A : Type 0} → Text → Outcome (Checked A) × IdpParser J → Outcome (Checked A) × IdpParser J
  prefixed before (throw e, s) = (throw e, s)
  prefixed before (ok (refused why), s) = (ok (refused (before ++ why)), s)
  prefixed before (ok (got a), s) = (ok (got a), s)

  -- An error with a text before it.
  unfoldable pub with_prefix : {A : Type 0} → Text → P J A → P J A
  with_prefix before m s = prefixed before (m s)

  unfoldable pub require : Bool → Text → P J (Unit {0})
  require true why s = (ok (got tt), s)
  require false why s = (ok (refused why), s)

  unfoldable pub from_option : {A : Type 0} → Text → Option A → P J A
  from_option why none s = (ok (refused why), s)
  from_option why (some a) s = (ok (got a), s)

  unfoldable pub update : (IdpParser J → IdpParser J) → P J (Unit {0})
  update f s = (ok (got tt), f s)

  unfoldable pub set_image : (Image → Image) → P J (Unit {0})
  set_image f s = (ok (got tt), record s { image = f s.image })

  unfoldable pub current : P J (IdpParser J)
  current s = (ok (got s), s)
