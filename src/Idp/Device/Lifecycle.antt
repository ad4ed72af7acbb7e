-- ===== src/Idp/Device/Lifecycle.antt =====
-- The public methods of IDPdevice: a description is loaded, checked, written and closed.
use rpi_fastbootd.Prelude.{
  ℕ, zero, suc, ◌≡◌, refl, Bool, true, false, not, ◌||◌, Option, none, some, List, [], ◌∷◌, arith,
  ◌==◌, if◌then◌else◌,
}
use rpi_fastbootd.Prelude.Text.{Text, is_empty}
use rpi_fastbootd.Prelude.Outcome.{Outcome, ok, throw}
use rpi_fastbootd.Idp.Storage.{Image, block_dev}
use rpi_fastbootd.Idp.Partition.{IdpPartition, is_crypt_container}
use rpi_fastbootd.Idp.Device.Platform.{
  Parser, Platform, Device, IdpState, init, config, ready, writing, partitioned, complete, error,
  Verdict, accept, refuse, already_writing, nothing_staged, no_image, no_partitions, not_config,
  no_firmware_crypto, class_mismatch, storage_not_ready, insufficient_storage, not_ready,
}
use rpi_fastbootd.Idp.Device.Validate.{
  check_device_class, validate_device_readiness, validate_device_storage,
  validate_provisioning_intent,
}
use rpi_fastbootd.Idp.Device.Physical.{init_physical_partitions}
use rpi_fastbootd.Idp.Device.Crypt.{init_crypt_partitions, close_crypt_partitions}

-- Comparison of states.
abbrev pub state_number : IdpState → ℕ
state_number init = 0
state_number config = 1
state_number ready = 2
state_number writing = 3
state_number partitioned = 4
state_number complete = 5
state_number error = 6

abbrev pub is_state : IdpState → IdpState → Bool
is_state a b = state_number a == state_number b

pub is_state_sound : (a b : IdpState) → is_state a b ≡ true → a ≡ b
is_state_sound init init h = refl
is_state_sound config config h = refl
is_state_sound ready ready h = refl
is_state_sound writing writing h = refl
is_state_sound partitioned partitioned h = refl
is_state_sound complete complete h = refl
is_state_sound error error h = refl
is_state_sound a b h = absurd (ground arith)

-- struct IDPcookie, and struct IDPblockDevice
pub record Cookie : Type 0 where
  pub index : ℕ
  pub session_id : ℕ

pub record BlockDevice : Type 0 where
  pub dev : Text
  pub simg : Text

-- What getNextBlockDevice gives for a partition that is no container.
unfoldable pub block_device_of : IdpPartition → Option BlockDevice
block_device_of q = elim q.simg [
  | none ↦ none
  | some simg ↦ elim q.blkdev [
    | none ↦ none
    | some [] ↦ none
    | some (c ∷ dev) ↦ some (record { dev = c ∷ dev; simg = simg })
  ]
]

-- The loop of getNextBlockDevice over the partitions from the index of the cookie on.
unfoldable pub next_device : List IdpPartition → ℕ → Option BlockDevice × ℕ
unfolding block_device_of
next_device [] i = (none, i)
next_device (q ∷ rest) i =
    let skip = next_device rest (suc i) in
    if is_crypt_container q then skip else (block_device_of q, suc i)

abbrev pub drop : ℕ → List IdpPartition → List IdpPartition
drop zero all = all
drop (suc n) [] = []
drop (suc n) (q ∷ all) = drop n all

module _ {P : Parser} where
  -- The constructor with no user key; with one it throws.
  unfoldable pub new_device : Image → ℕ → ℕ → ℕ → Device P
  new_device image session_id dcap isize = record {
    parser = P.fresh;
    partitions = [];
    image = image;
    state = init;
    session_id = session_id;
    dcap = dcap;
    isize = isize;
  }

  -- Initialise once the description is parsed.
  unfoldable pub take_description : Device P → Option Image → Verdict × Device P
  take_description d none = (refuse no_image, d)
  take_description d (some image) =
      let all = P.get_partitions d.parser in
      let d' : Device P = record d { image = image; partitions = all } in
      if is_empty all then (refuse no_partitions, d') else (accept, record d' { state = config })

  -- IDPdevice::Initialise
  unfoldable pub initialise : Device P → Text → Outcome Verdict × Device P
  unfolding take_description
  initialise d text =
      let (loaded, parser) = P.load_data d.parser text in
      let d' : Device P = record d { parser = parser } in
      if is_state d.state writing
      then (ok (refuse already_writing), d)
      else if is_empty text
      then (ok (refuse nothing_staged), d)
      else elim loaded [
        | throw e ↦ (throw e, d')
        | ok (some r) ↦ (ok (refuse r), d')
        | ok none ↦
            let (verdict, d'') = take_description d' (P.get_image parser) in (ok verdict, d'')
      ]

  -- createCookie; resetCookie checks the session and leaves the cookie as it is.
  unfoldable pub create_cookie : Device P → Cookie
  create_cookie d = record { index = 0; session_id = d.session_id }

  unfoldable pub reset_cookie : Device P → Cookie → Cookie
  reset_cookie d c = c

  -- IDPdevice::getNextBlockDevice
  unfoldable pub get_next_block_device : Device P → Cookie → Option BlockDevice × Cookie
  unfolding next_device
  get_next_block_device d c =
      if not (c.session_id == d.session_id) || not (is_state d.state partitioned)
      then (none, c)
      else let (found, i) = next_device (drop c.index d.partitions) c.index in
        (found, record c { index = i })

module _ {P : Parser} {World : Type 0} (p : Platform World) where
  -- canProvision past the check of the storage size.
  unfoldable pub check_intent : Outcome Bool → Device P → World → Outcome Verdict × Device P
  check_intent (throw e) d w = (throw e, d)
  check_intent (ok false) d w = (ok (refuse (insufficient_storage d.isize d.dcap)), d)
  check_intent (ok true) d w =
      if validate_provisioning_intent p d.partitions w
      then (ok accept, record d { state = ready })
      else (ok (refuse no_firmware_crypto), d)

  -- IDPdevice::canProvision
  unfoldable pub can_provision : Device P → World → Outcome Verdict × Device P × World
  unfolding check_intent
  can_provision d w =
      let dev = block_dev d.image.device_storage none in
      let (is_ready, w1) = validate_device_readiness p dev w in
      let (fits, d') = validate_device_storage p d w1 in
      let (verdict, d'') = check_intent fits d' w1 in
      if not (is_state d.state config)
      then (ok (refuse not_config), d, w)
      else if not (check_device_class d.image.device_class (p.device_model w))
      then (ok (refuse (class_mismatch d.image.device_class)), d, w)
      else if not is_ready
      then (ok (refuse (storage_not_ready dev)), d, w1)
      else (verdict, d'', w1)

  -- IDPdeviceWriter::PrepareStorage
  unfoldable pub prepare_storage : Device P → World → Outcome Verdict × Device P × World
  prepare_storage d w =
      let (physical, all, w1) = init_physical_partitions p d.image.device_storage d.partitions w in
      let (crypt, all', w2) = init_crypt_partitions p d.image.device_storage all w1 in
      elim physical [
        | throw e ↦ (throw e, record d { partitions = all }, w1)
        | ok (false, why) ↦ (ok (false, why), record d { partitions = all }, w1)
        | ok (true, why) ↦ (crypt, record d { partitions = all' }, w2)
      ]

  -- startProvision once the device is writing.
  unfoldable pub finish_start : Outcome Verdict → Device P → Outcome Verdict × Device P
  finish_start (throw e) d = (throw e, d)
  finish_start (ok (false, why)) d = (ok (false, why), record d { state = error })
  finish_start (ok (true, why)) d = (ok (true, why), record d { state = partitioned })

  -- IDPdevice::startProvision
  unfoldable pub start_provision : Device P → World → Outcome Verdict × Device P × World
  unfolding finish_start
  start_provision d w =
      let (prepared, d', w1) = prepare_storage (record d { state = writing }) w in
      let (verdict, d'') = finish_start prepared d' in
      if is_state d.state ready then (verdict, d'', w1) else (ok (refuse (not_ready d.state)), d, w)

  -- IDPdevice::endProvision: FinaliseStorage always succeeds.
  unfoldable pub end_provision : Device P → World → Bool × Device P × World
  end_provision d w =
      let (all, w1) = close_crypt_partitions p d.partitions w in
      (true, record d { partitions = all; state = complete }, w1)
