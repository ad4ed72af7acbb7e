-- ===== src/Idp/Device/Checks.antt =====
-- What the checks of the device class and of the provisioning intent (rpiidp/src/device.cpp) ask of
-- the device and of its partitions.
use rpi_fastbootd.Prelude.{
  ℕ, ◌≡◌, refl, sym, ap, ◌∙◌, ◌≢◌, ◌⊎◌, inl, inr, true, false, ◌||◌, Option, none, some, List, [],
  ◌∷◌, arith, Bool-cases, Option-cases, if-elim,
}
use rpi_fastbootd.Prelude.Text.{
  Text, codes, text_eq, text_eq_sound, text_eq_refl, is_empty, to_lower, contains,
}
use rpi_fastbootd.Idp.Partition.{IdpPartition}
use rpi_fastbootd.Idp.Device.Platform.{Platform}
use rpi_fastbootd.Idp.Device.Validate.{
  family_models, any_model, check_device_class, check_firmware_crypto_status,
  validate_provisioning_intent,
}

-- A name that shows that a device is of a class: that of a board of the class's family, or, for a
-- class that is no family, the class.
pub data Names (class : Text) : Text → Type 0 where
  pi5 :
      (class ≡ codes "pi5") ⊎ (class ≡ codes "cm5")
      → (name : Text)
      → (name ≡ codes "Raspberry Pi 5") ⊎ (name ≡ codes "Raspberry Pi Compute Module 5")
      → Names class name
  pi4 :
      (class ≡ codes "pi4") ⊎ (class ≡ codes "cm4")
      → (name : Text)
      → (name ≡ codes "Raspberry Pi 4")
        ⊎ ((name ≡ codes "Raspberry Pi Compute Module 4") ⊎ (name ≡ codes "Raspberry Pi 400"))
      → Names class name
  zero2w : class ≡ codes "zero2w" → Names class (codes "Raspberry Pi Zero 2")
  other :
      class ≢ codes "pi5"
      → class ≢ codes "cm5"
      → class ≢ codes "pi4"
      → class ≢ codes "cm4"
      → class ≢ codes "zero2w"
      → Names class class

-- The device tree gives a model that has such a name in it, whatever the case of its letters.
abbrev pub IsOfClass : Text → Option Text → Type 0
IsOfClass class model =
    (line name : Text) × (model ≡ some line)
    × Names class name
    × (contains (to_lower line) (to_lower name) ≡ true)

abbrev AllName : Text → List Text → Type 0
AllName class [] = Unit
AllName class (name ∷ names) = Names class name × AllName class names

any_model-AllName :
    (class actual : Text) (names : List Text)
    → AllName class names
    → any_model actual names ≡ true
    → (name : Text) × Names class name × (contains actual (to_lower name) ≡ true)
unfolding any_model
any_model-AllName class actual [] all h = absurd (cc h)
any_model-AllName class actual (name ∷ names) all h =
    elim (Bool-cases (contains actual (to_lower name))) [
      | inl here ↦ (name, all.0, here)
      | inr past ↦ any_model-AllName class actual names all.1 (rw past at h)
    ]

either : (class a b : Text) → text_eq class a || text_eq class b ≡ true → (class ≡ a) ⊎ (class ≡ b)
either class a b h = elim (Bool-cases (text_eq class a)) [
  | inl first ↦ inl (text_eq_sound class a first)
  | inr later ↦ inr (text_eq_sound class b (rw later at h))
]

differs : (class a : Text) → text_eq class a ≡ false → class ≢ a
differs class a h same = clash (sym (text_eq_refl a) ∙ ap (λ c. text_eq c a) (sym same) ∙ h)
  where
    clash : true ≡ false → ⊥
    clash e = cc

-- The list of a family has names of the class, and it is empty for a class that is no family.
abbrev Lists : Text → List Text → Type 0
Lists class names =
    (Names class class × (is_empty names ≡ true)) ⊎ (AllName class names × (is_empty names ≡ false))

family_models-Lists : (class : Text) → Lists class (family_models class)
unfolding family_models
family_models-Lists class =
    if-elim (Lists class) (text_eq class (codes "pi5") || text_eq class (codes "cm5"))
      (λ h.
        let of = either class (codes "pi5") (codes "cm5") h in
        inr ((pi5 of _ (inl refl), (pi5 of _ (inr refl), tt)), refl))
      λ not5.
        if-elim (Lists class) (text_eq class (codes "pi4") || text_eq class (codes "cm4"))
          (λ h.
            let of = either class (codes "pi4") (codes "cm4") h in
            inr (
              (pi4 of _ (inl refl), (pi4 of _ (inr (inl refl)), (pi4 of _ (inr (inr refl)), tt))),
              refl,
            ))
          λ not4.
            if-elim (Lists class) (text_eq class (codes "zero2w"))
              (λ h. inr ((zero2w (text_eq_sound class (codes "zero2w") h), tt), refl))
              λ not2. inl (
                other (differs class (codes "pi5") (ground arith))
                    (differs class (codes "cm5") (ground arith))
                    (differs class (codes "pi4") (ground arith))
                    (differs class (codes "cm4") (ground arith))
                    (differs class (codes "zero2w") not2),
                refl,
              )

pub check_device_class-IsOfClass :
    (class : Text) (model : Option Text)
    → check_device_class class model ≡ true
    → IsOfClass class model
unfolding check_device_class
check_device_class-IsOfClass class none h = absurd (cc h)
check_device_class-IsOfClass class (some line) h = elim (family_models-Lists class) [
  | inl (named, empty) ↦ (line, class, refl, named, rw empty at h)
  | inr (all, full) ↦
      let (name, named, found) =
        any_model-AllName class (to_lower line) (family_models class) all (rw full at h) in
      (line, name, refl, named, found)
]

-- A partition that needs no key from the firmware, or a firmware that is provisioned and whose HMAC
-- works.
abbrev pub CanHaveKey : {World : Type 0} → Platform World → World → IdpPartition → Type 0
CanHaveKey p w q =
    (q.luks ≡ none)
    ⊎ (((j : ℕ) × (q.parent_index ≡ some j))
        ⊎ ((p.provisioning_status w ≡ some true) × (p.hmac_works w ≡ true)))

abbrev pub AllCanHaveKeys : {World : Type 0} → Platform World → World → List IdpPartition → Type 0
AllCanHaveKeys p w [] = Unit
AllCanHaveKeys p w (q ∷ all) = CanHaveKey p w q × AllCanHaveKeys p w all

crypto-works :
    {World : Type 0} (p : Platform World) (w : World)
    → check_firmware_crypto_status p w ≡ true
    → (p.provisioning_status w ≡ some true) × (p.hmac_works w ≡ true)
unfolding check_firmware_crypto_status
crypto-works p w h = ground arith

pub intent-AllCanHaveKeys :
    {World : Type 0} (p : Platform World) (all : List IdpPartition) (w : World)
    → validate_provisioning_intent p all w ≡ true
    → AllCanHaveKeys p w all
unfolding validate_provisioning_intent
intent-AllCanHaveKeys p [] w h = tt
intent-AllCanHaveKeys p (q ∷ all) w h = (
  elim (Option-cases q.luks) [
    | inl plain ↦ inl plain
    | inr (l, sealed) ↦ elim (Option-cases q.parent_index) [
      | inr inner ↦ inr (inl inner)
      | inl root ↦ inr (inr (crypto-works p w (ground arith)))
    ]
  ],
  intent-AllCanHaveKeys p all w (ground arith),
)
