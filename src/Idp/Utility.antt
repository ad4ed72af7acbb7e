-- ===== src/Idp/Utility.antt =====
-- utils::WaitBlockDev of rpiidp/src/utility.cpp.
use rpi_fastbootd.Prelude.{ℕ, zero, suc, ◌*◌, ◌/◌, Bool, true, false, if◌then◌else◌}
use rpi_fastbootd.Prelude.Text.{Text}
use rpi_fastbootd.Idp.Device.Platform.{Platform}

-- The polling loop, every 100 ms.
unfoldable pub poll_block_dev : {World : Type 0} → Platform World → ℕ → Text → World → Bool × World
poll_block_dev p zero dev w = (false, w)
poll_block_dev p (suc n) dev w =
    let (is_ready, w1) = p.block_dev_ready dev w in
    let again = poll_block_dev p n dev (p.sleep_ms 100 w1) in if is_ready then (true, w1) else again

unfoldable pub wait_block_dev : {World : Type 0} → Platform World → Text → ℕ → World → Bool × World
unfolding poll_block_dev
wait_block_dev p dev timeout_sec w = poll_block_dev p (timeout_sec * 1000 / 100) dev w
