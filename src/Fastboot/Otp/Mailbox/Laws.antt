-- ===== src/Fastboot/Otp/Mailbox/Laws.antt =====
-- What SetCustomerMac has done when it succeeds, and when it writes nothing.
use rpi_fastbootd.Prelude.{ℕ, ◌≡◌, refl, ap, subst, ◌∙◌, false, not, none, some, List, if-elim}
use rpi_fastbootd.Fastboot.Otp.{Result, good, bad, WriteOutcome}
use rpi_fastbootd.Fastboot.Otp.Mac.{Mac, MacInterface, mac_is_blank, validate_mac, mac_eq}
use rpi_fastbootd.Fastboot.Otp.Mac.Laws.{mac_eq-eq}
use rpi_fastbootd.Fastboot.Otp.Mailbox.{
  Firmware, get_customer_mac, confirm_mac, after_write, replace_mac, if_valid, set_customer_mac,
}

module _ {World : Type 0} (fw : Firmware World) (iface : MacInterface) (mac : Mac) where
  -- The address was the last thing that was read.
  abbrev IsConfirmed : Result WriteOutcome × World → Type 0
  IsConfirmed (bad msg, w) = Unit
  IsConfirmed (good outcome, w) = (w0 : World) × (get_customer_mac fw iface w0 ≡ (good mac, w))

  confirm_mac-IsConfirmed :
      (w0 : World) (r : Result Mac × World)
      → get_customer_mac fw iface w0 ≡ r
      → IsConfirmed (confirm_mac fw mac r)
  unfolding confirm_mac
  confirm_mac-IsConfirmed w0 (bad msg, w) e = tt
  confirm_mac-IsConfirmed w0 (good written, w) e =
      if-elim IsConfirmed (mac_eq written mac)
        (λ same. (w0, e ∙ ap (λ m. (good m, w)) (mac_eq-eq written mac same))) (λ _. tt)

  after_write-IsConfirmed : (r : Result (List ℕ) × World) → IsConfirmed (after_write fw iface mac r)
  unfolding after_write
  after_write-IsConfirmed (bad msg, w) = tt
  after_write-IsConfirmed (good value, w) = confirm_mac-IsConfirmed w _ refl

  replace_mac-IsConfirmed :
      (w0 : World) (r : Result Mac × World)
      → get_customer_mac fw iface w0 ≡ r
      → IsConfirmed (replace_mac fw iface mac r)
  unfolding replace_mac
  replace_mac-IsConfirmed w0 (bad msg, w) e = tt
  replace_mac-IsConfirmed w0 (good current, w) e =
      if-elim IsConfirmed (mac_eq current mac)
        (λ same. (w0, e ∙ ap (λ m. (good m, w)) (mac_eq-eq current mac same)))
        (λ _.
          if-elim IsConfirmed (not (mac_is_blank current)) (λ _. tt)
            (λ _. after_write-IsConfirmed _))

  set_customer_mac-IsConfirmed : (w : World) → IsConfirmed (set_customer_mac fw iface mac w)
  unfolding set_customer_mac
  set_customer_mac-IsConfirmed w =
      elim (validate_mac mac) as (λ v. IsConfirmed (if_valid fw iface mac v w)) [
        | some msg ↦ tt
        | none ↦ replace_mac-IsConfirmed w _ refl
      ]

  -- When SetCustomerMac succeeds, whether it has programmed the address or found it there, the
  -- last call of the firmware has read this address.
  pub set_customer_mac_lem :
      (outcome : WriteOutcome) (w w' : World)
      → set_customer_mac fw iface mac w ≡ (good outcome, w')
      → (w0 : World) × (get_customer_mac fw iface w0 ≡ (good mac, w'))
  set_customer_mac_lem outcome w w' e = subst IsConfirmed e (set_customer_mac-IsConfirmed w)

  -- SetCustomerMac writes nothing over an address that is there: the firmware is as the reading of
  -- that address leaves it.
  pub set_customer_mac-keeps :
      (current : Mac) (w w' : World)
      → validate_mac mac ≡ none
      → get_customer_mac fw iface w ≡ (good current, w')
      → mac_is_blank current ≡ false
      → (set_customer_mac fw iface mac w).1 ≡ w'
  unfolding set_customer_mac replace_mac
  set_customer_mac-keeps current w w' valid read there = rw valid (
      rw read (
        if-elim {A = Result WriteOutcome × World} (λ r. r.1 ≡ w') (mac_eq current mac) (λ _. refl)
          (λ _. rw there refl)))
