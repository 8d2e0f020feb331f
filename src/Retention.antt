-- ===== src/Retention.antt =====
-- lib/retention: the sweep of scheduler.hpp and scheduler.cpp. `start`, `stop` and `run` only time
-- the sweeps, on a thread. Calls of other threads between the steps of a sweep are not part of it.
pub mod Sweeping
use ot_sec_file_transfer.Base.{ℕ, ◌+◌, List, [], ◌∷◌, if◌then◌else◌, Text, is_ok}
use ot_sec_file_transfer.Transaction.Service.Core.{Service, Server}
use ot_sec_file_transfer.Transaction.Service.Removing.{expire}
use ot_sec_file_transfer.Transaction.Service.Reading.{list_expired}

pub record SweepResult : Type 0 where
  pub expired : ℕ
  pub failed : ℕ

module _ {S U D : Type 0} (o : Service S U D) where
  -- The loop of `run_once`, with the result so far.
  unfoldable pub sweep : List Text → SweepResult → Server S → SweepResult × Server S
  sweep [] result s = (result, s)
  sweep (id ∷ ids) result s =
      let res = expire o id s in
      sweep ids
        (if is_ok res.0
          then record result { expired = result.expired + 1 }
          else record result { failed = result.failed + 1 })
        res.1

  unfoldable pub run_once : ℕ → Server S → SweepResult × Server S
  unfolding sweep
  run_once now s = sweep (list_expired now s) (record { expired = 0; failed = 0 }) s
