-- ===== src/Fastboot/Session/Laws.antt =====
-- What a session promises to the host.
use rpi_fastbootd.Prelude.{
  ℕ, zero, suc, ◌+◌, ◌≡◌, refl, ap, ◌∙◌, ◌≢◌, ◌⊎◌, inl, inr, Bool, true, false, Option, none, some,
  List, ◌++◌, arith, Bool-cases, if-elim,
}
use rpi_fastbootd.Prelude.Text.{Text, codes}
use rpi_fastbootd.Prelude.Outcome.{Outcome, Fault, ok, throw}
use rpi_fastbootd.Idp.Device.Platform.{Parser}
use rpi_fastbootd.Fastboot.Transport.{Transport, Base, FastbootDevice, fail}
use rpi_fastbootd.Fastboot.Response.{write_status}
use rpi_fastbootd.Fastboot.Response.Laws.{write_status-IsSettled}
use rpi_fastbootd.Fastboot.Session.{
  AfterCommand, decide_after_command, next_command, reply_fail_then_next, end_session, Handler,
  Next, again, done, crashed, is_exception, find_command, has_control, parse_command, first,
  after_handler, go_on, dispatch, refuse_command, execute_command, execute_next, execute_commands,
}

-- The host has had its reply, or the transport carries none.
abbrev pub IsServed : {P : Parser} → FastbootDevice P → Type 0
IsServed fb = (fb.replied ≡ true) ⊎ (fb.transport_failed ≡ true)

-- A handler that reports success has replied; of one that reports failure nothing is asked.
abbrev pub RepliesOnSuccess : {P : Parser} {World : Type 0} → Handler P World → Type 0
RepliesOnSuccess {P} {World} handler =
    (args : List Text) (fb : FastbootDevice P) (w : World)
    → (handler args fb w).0 ≡ ok true
    → IsServed (handler args fb w).1

-- A round that goes on to the next command has served the host.
abbrev pub GoesOnServed : {P : Parser} {World : Type 0} → Next × FastbootDevice P × World → Type 0
GoesOnServed (next, fb, w) = next ≡ again → IsServed fb

-- Two rounds that go on in one way and leave one world.
abbrev pub IsSameRound :
    {P : Parser} {World : Type 0}
    → Next × FastbootDevice P × World
    → Next × FastbootDevice P × World
    → Type 0
IsSameRound (next, fb, w) (next', fb', w') = (next ≡ next') × (w ≡ w')

decide_served :
    (handler_ok replied transport_failed : Bool)
    → decide_after_command handler_ok replied transport_failed ≡ next_command
    → (handler_ok ≡ true) ⊎ (replied ≡ true)
unfolding decide_after_command
decide_served handler_ok replied transport_failed h = ground arith

module _ {P : Parser} {World : Type 0} (t : Transport World) (base : Base)
    (what : Fault → Text) where
  fail-IsServed :
      (message : Text) (fb : FastbootDevice P) (w : World)
      → IsServed (write_status t fail message fb w).1
  fail-IsServed message fb w =
      let (replied, failed) = write_status-IsSettled t fail message fb w refl in
      elim (Bool-cases (write_status t fail message fb w).0) [
        | inl e ↦ inl (replied e)
        | inr e ↦ inr (failed e)
      ]

  go_on-GoesOnServed :
      (decision : AfterCommand) (fb : FastbootDevice P) (w : World)
      → (decision ≡ next_command → IsServed fb)
      → GoesOnServed (go_on t base what decision fb w)
  unfolding go_on
  go_on-GoesOnServed end_session fb w h e = cc
  go_on-GoesOnServed reply_fail_then_next fb w h e =
      if-elim GoesOnServed (write_status t fail (codes "command failed") fb w).1.transport_failed
        (λ _ e'. cc) (λ _ _. fail-IsServed (codes "command failed") fb w) e
  go_on-GoesOnServed next_command fb w h e = h refl

  after_handler-GoesOnServed :
      (r : Outcome Bool) (fb : FastbootDevice P) (w : World)
      → (r ≡ ok true → IsServed fb)
      → GoesOnServed (after_handler t base what (r, fb, w))
  unfolding after_handler
  after_handler-GoesOnServed (throw x) fb w h =
      if-elim GoesOnServed (is_exception x) (λ _ e. cc) (λ _ e. cc)
  after_handler-GoesOnServed (ok handler_ok) fb w h =
      go_on-GoesOnServed (decide_after_command handler_ok fb.replied fb.transport_failed) fb w λ e.
        elim (decide_served handler_ok fb.replied fb.transport_failed e) [
          | inl success ↦ h (ap ok success)
          | inr replied ↦ inl replied
        ]

  served_each_time :
      (table : List (Text × Handler P World)) (command : Text) (fb : FastbootDevice P) (w : World)
      → ((name : Text) (handler : Handler P World)
          → find_command table name ≡ some handler
          → RepliesOnSuccess handler)
      → GoesOnServed (execute_command t base what table command fb w)
  unfolding execute_command refuse_command dispatch
  served_each_time table command fb w h =
      if-elim GoesOnServed (has_control command)
        (λ _ _. fail-IsServed (codes "Command contains control character") fb w)
        (λ _. by_entry (find_command table cmd_name) refl)
    where
      cmd_name : Text
      cmd_name = (parse_command base command).0

      args : List Text
      args = (parse_command base command).1

      by_entry :
          (entry : Option (Handler P World))
          → find_command table cmd_name ≡ entry
          → GoesOnServed (dispatch t base what entry args fb w)
      by_entry none e = λ _. fail-IsServed (codes "Unrecognized command " ++ first args) fb w
      by_entry (some handler) e =
          after_handler-GoesOnServed _ _ _
            (λ r. h cmd_name handler e args (record fb { replied = false }) w r)

  -- Whatever the flag for a reply is before the round, it goes on in one way and leaves one world.
  refuse_command-fresh :
      (message : Text) (fb : FastbootDevice P) (b : Bool) (w : World)
      → IsSameRound
          (refuse_command t base what message fb w)
          (refuse_command t base what message (record fb { replied = b }) w)
  unfolding refuse_command write_status
  refuse_command-fresh message fb b w = (refl, ground arith)

  dispatch-fresh :
      (entry : Option (Handler P World)) (args : List Text) (fb : FastbootDevice P) (b : Bool)
      (w : World)
      → IsSameRound
          (dispatch t base what entry args fb w)
          (dispatch t base what entry args (record fb { replied = b }) w)
  unfolding dispatch
  dispatch-fresh none args fb b w = refuse_command-fresh _ fb b w
  dispatch-fresh (some handler) args fb b w = (refl, refl)

  execute_command-fresh :
      (table : List (Text × Handler P World)) (command : Text) (fb : FastbootDevice P) (b : Bool)
      (w : World)
      → IsSameRound
          (execute_command t base what table command fb w)
          (execute_command t base what table command (record fb { replied = b }) w)
  unfolding execute_command
  execute_command-fresh table command fb b w =
      let (cmd_name, args) = parse_command base command in
      elim (Bool-cases (has_control command)) [
        | inl e ↦ rw e (refuse_command-fresh _ fb b w)
        | inr e ↦ rw e (dispatch-fresh (find_command table cmd_name) args fb b w)
      ]

  -- The host is never left waiting: whatever command it sends, if the loop goes on to the next
  -- one, an OKAY or FAIL has gone out in this round or the transport has failed. That it is in this
  -- round: the loop goes on in the same way, and leaves the same world, as from the device whose
  -- flag for a reply is cleared, and there too the flag is set or the transport has failed when it
  -- goes on. Of the handlers it is asked that they reply when they succeed; one that fails may stay
  -- silent.
  pub execute_command-GoesOnServed :
      (table : List (Text × Handler P World)) (command : Text) (fb : FastbootDevice P) (w : World)
      → ((name : Text) (handler : Handler P World)
          → find_command table name ≡ some handler
          → RepliesOnSuccess handler)
      → let round = execute_command t base what table command fb w in
        let fresh = execute_command t base what table command (record fb { replied = false }) w in
        GoesOnServed round × GoesOnServed fresh × IsSameRound round fresh
  execute_command-GoesOnServed table command fb w h = (
    served_each_time table command fb w h,
    served_each_time table command (record fb { replied = false }) w h,
    execute_command-fresh table command fb false w,
  )

  -- Fuel bounds only how many commands are read: a session that has ended goes on no further with
  -- more of it.
  pub execute_commands_fuel :
      (n k : ℕ) (table : List (Text × Handler P World)) (fb : FastbootDevice P) (w : World)
      → (execute_commands t base what n table fb w).0 ≢ again
      → execute_commands t base what (n + k) table fb w ≡ execute_commands t base what n table fb w
  unfolding execute_commands
  execute_commands_fuel zero k table fb w h = absurd (h refl)
  execute_commands_fuel (suc n) k table fb w h =
      ap (λ m. execute_commands t base what m table fb w) is_suc
      ∙ by_next (execute_next t base what table fb w).0 (execute_commands_fuel n k table _ _) h
    where
      is_suc : suc n + k ≡ suc (n + k)
      is_suc = omega arith

      fb1 : FastbootDevice P
      fb1 = (execute_next t base what table fb w).1

      w1 : World
      w1 = (execute_next t base what table fb w).2

      rest : ℕ → Next → Next × FastbootDevice P × World
      rest fuel again = execute_commands t base what fuel table fb1 w1
      rest fuel done = (done, fb1, w1)
      rest fuel (crashed e) = (crashed e, fb1, w1)

      by_next :
          (next : Next)
          → ((rest n again).0 ≢ again → rest (n + k) again ≡ rest n again)
          → (rest n next).0 ≢ again
          → rest (n + k) next ≡ rest n next
      by_next again goes_on h = goes_on h
      by_next done goes_on h = refl
      by_next (crashed e) goes_on h = refl
